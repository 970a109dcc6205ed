-- ===== src/Secure/Tests.antt =====
-- The secure sampler at concrete packets, with a sum for the keyed hash.
use brubeck.Prelude.{
  ℕ, ◌%◌, ◌≡◌, refl, arith, List, [], ◌∷◌, ◌++◌, Option, none, some, replicate, length,
  length-replicate,
}
use brubeck.Bloom.{
  multibloom_check, multibloom_reset, multibloom_new, check_from, probe, position, test_bit, or_bit,
}
use brubeck.Bloom.Filters.{multibloom_new-IsValid}
use brubeck.Stats.{Stat, Counters}
use brubeck.Secure.{
  StatsdSecure, Token, Verdict, fresh, rejected, Worker, packet, new_second, check_token,
  verify_token, token_of, secure__receive, admit, memcmpct, or, xor,
}
use brubeck.Secure.Judge.{IsValid}
use brubeck.Secure.Replay.{verify_all, verify_all-replayed, verify_token_again, RefusesAll}
use brubeck.Secure.Packet.{IsMac, Admits, secure__receive-Admits}

abbrev pub start : StatsdSecure
start = record { replays = multibloom_new 5 20 3; now = 0; drift = 5 }

pub start-IsValid : IsValid start
unfolding multibloom_new
start-IsValid = record {
  drift = omega arith;
  replays = multibloom_new-IsValid 5 20 3 (omega arith);
  slots = refl;
  hashes = omega arith;
  clock = omega arith;
}

abbrev token : Token
token = record { timestamp = 1002; ha = 7; hb = 100 }

abbrev other : Token
other = record { timestamp = 1003; ha = 7; hb = 101 }

abbrev verdicts : Option (List Verdict × StatsdSecure) → List Verdict
verdicts none = []
verdicts (some (vs, s)) = vs

-- Accepted at 1003, replayed at 1006, accepted once more at 1007, late at 1008.
readmitted :
    verdicts (
      verify_all start (
        (1003, token)
        ∷ (1004, other)
        ∷ (1006, token)
        ∷ (1007, token)
        ∷ (1008, token)
        ∷ (1008, record other { timestamp = 1009 })
        ∷ []))
    ≡ fresh
      ∷ fresh
      ∷ rejected Stat.replayed
      ∷ fresh
      ∷ rejected Stat.delayed
      ∷ rejected Stat.from_future
      ∷ []
unfolding verify_all verify_token new_second check_token multibloom_check multibloom_reset
    multibloom_new check_from probe position test_bit or_bit
readmitted = refl

abbrev state_of : Option (Verdict × StatsdSecure) → StatsdSecure
state_of none = start
state_of (some (v, s)) = s

abbrev after_first : StatsdSecure
after_first = state_of (verify_token start 1003 token)

abbrev later_tokens : List (ℕ × Token)
later_tokens = (1003, token) ∷ (1004, other) ∷ (1006, token) ∷ []

first_accepted : verify_token start 1003 token ≡ some (fresh, after_first)
unfolding verify_token new_second check_token multibloom_check multibloom_reset multibloom_new
    check_from probe position test_bit or_bit
first_accepted = refl

verify_all-replayed_example : RefusesAll token later_tokens (verify_all after_first later_tokens)
verify_all-replayed_example =
    verify_all-replayed start after_first 1003 token later_tokens start-IsValid first_accepted
      (omega arith) (omega arith) (omega arith)

verify_token_again_example :
    (s' : StatsdSecure) × (verify_token start 1007 token ≡ some (fresh, s'))
verify_token_again_example =
    verify_token_again start token start-IsValid (omega arith) (omega arith)

abbrev pub length_mac : List ℕ → List ℕ
length_mac text = replicate 32 (length text % 256)

pub length_mac-IsMac : IsMac length_mac
length_mac-IsMac text = (length-replicate 32 (length text % 256), omega arith)

-- The time 1002, four bytes of salt and five of a message, after their keyed hash.
abbrev signed : List ℕ
signed =
    replicate 32 17
    ++ (234 ∷ 3 ∷ replicate 6 0)
    ++ (1 ∷ 2 ∷ 3 ∷ 4 ∷ [])
    ++ (97 ∷ 58 ∷ 49 ∷ 124 ∷ 103 ∷ [])

abbrev pub worker : Worker
worker = record {
  statsd = start;
  inflow = 9;
  stats = record { sample_freq = 10; live = no_events; sample = no_events };
}
  where
    no_events : Counters
    no_events = record {
      metrics = 0;
      errors = 0;
      unique_keys = 0;
      failed = 0;
      from_future = 0;
      delayed = 0;
      replayed = 0;
    }

abbrev payload_of : Option (Option (List ℕ) × Worker) → Option (List ℕ)
payload_of none = none
payload_of (some (payload, w)) = payload

passed_on :
    payload_of (secure__receive length_mac worker 1003 (packet signed))
    ≡ some (97 ∷ 58 ∷ 49 ∷ 124 ∷ 103 ∷ [])
unfolding secure__receive admit memcmpct or xor token_of verify_token new_second check_token
    multibloom_check multibloom_reset multibloom_new check_from probe position test_bit or_bit
passed_on = refl

secure__receive-Admits_example :
    Admits length_mac worker 1003 signed (secure__receive length_mac worker 1003 (packet signed))
secure__receive-Admits_example =
    secure__receive-Admits length_mac worker 1003 signed length_mac-IsMac start-IsValid
      (omega arith) (omega arith)
