-- ===== src/SecureSend/Delivered.antt =====
-- What test-bin/statsd-secure-send.c sends, src/samplers/statsd-secure.c delivers once.
use mathlib.Core.Path.{subst}
use brubeck.Prelude.{
  ℕ, zero, suc, ◌+◌, ◌-◌, ◌/◌, ◌%◌, ◌^◌, ◌≤◌, ◌<◌, ◌≡◌, refl, ap, sym, ◌∙◌, List, [], ◌∷◌, ◌++◌,
  Option, none, some, true, false, ◌==◌, ltb, arith, length, take, drop, u64, length-append,
  take-append_of_length, take_of_le,
}
use mathlib.Core.List.{append_assoc}
use brubeck.Stats.{Stat, stats_inc}
use brubeck.Secure.{
  Token, Verdict, fresh, StatsdSecure, Worker, packet, Received, recv_from, from_bytes, token_of,
  memcmpct, verify_token, admit, secure__receive, sha_size, min_packet_size,
}
use brubeck.Secure.Judge.{IsValid, Same, remembers, verdict}
use brubeck.Secure.Replay.{IsKept, Verifies, verify_token-Verifies, Guards, verified-replayed}
use brubeck.Secure.Packet.{IsMac, memcmpct_iff}
use brubeck.Secure.Turns.{receive_all, Comes, receive_all-Guards}
use brubeck.SecureSend.{to_bytes, stamp, signed_text, build_packet}

-- The number has no more than so many bytes.
abbrev FitsBytes : ℕ → ℕ → Type 0
FitsBytes zero n = n ≡ 0
FitsBytes (suc w) n = FitsBytes w (n / 256)

from_bytes-to_bytes : (w n : ℕ) → FitsBytes w n → from_bytes (to_bytes w n) ≡ n
from_bytes-to_bytes zero n f = sym f
from_bytes-to_bytes (suc w) n f = omega (arith, from_bytes-to_bytes w (n / 256) f)

length-to_bytes : (w n : ℕ) → length (to_bytes w n) ≡ w
length-to_bytes zero n = refl
length-to_bytes (suc w) n = ap suc (length-to_bytes w (n / 256))

drop-append_of_length :
    {A : Type 0} (xs ys : List A) (n : ℕ) → length xs ≡ n → drop n (xs ++ ys) ≡ ys
drop-append_of_length [] ys zero h = refl
drop-append_of_length [] ys (suc n) h = absurd (omega arith)
drop-append_of_length (x ∷ xs) ys zero h = absurd (omega arith)
drop-append_of_length (x ∷ xs) ys (suc n) h = drop-append_of_length xs ys n (omega arith)

-- A worker that has delivered the packet: all else is as it was, and until the token leaves the drift
-- the packet is refused as replayed.
pub record HasDelivered (hmac : List ℕ → List ℕ) (tv_sec : ℕ) (sent : List ℕ) (w w' : Worker)
    : Type 0 where
  pub same : Same w.statsd w'.statsd
  pub stats : w'.stats ≡ w.stats
  pub inflow : w'.inflow ≡ u64 (w.inflow + 1)
  pub again :
      (between : List (ℕ × Received)) (later : ℕ)
      → (tv_sec - 2) + w.statsd.drift ≤ 2 ^ 64
      → Comes ((tv_sec - 2) + w.statsd.drift) w'.statsd.now between later
      → (u : Worker) × ((w'' : Worker) × (receive_all hmac w' between ≡ some u)
          × (secure__receive hmac u later (recv_from sent) ≡ some (none, w''))
          × (w''.stats ≡ stats_inc Stat.replayed u.stats))

module _ (hmac : List ℕ → List ℕ) (is_mac : IsMac hmac) (tv_sec nonce : ℕ) (metric : List ℕ)
    (clock : tv_sec < 2 ^ 64) (late : 2 ≤ tv_sec) (short : length metric ≤ 979) where
  abbrev text : List ℕ
  text = signed_text tv_sec nonce metric

  abbrev sent : List ℕ
  sent = hmac text ++ text

  length-hmac : length (hmac text) ≡ sha_size
  length-hmac = (is_mac text).0

  hash_lem : take sha_size sent ≡ hmac text
  hash_lem = take-append_of_length (hmac text) text sha_size length-hmac

  rest_lem : drop sha_size sent ≡ text
  rest_lem = drop-append_of_length (hmac text) text sha_size length-hmac

  stamp_lem : stamp tv_sec ≡ tv_sec - 2
  stamp_lem = omega arith

  timestamp_lem : (token_of sent).timestamp ≡ tv_sec - 2
  unfolding token_of
  timestamp_lem = rw rest_lem (from_bytes-to_bytes 8 (stamp tv_sec) (omega arith) ∙ stamp_lem)

  genuine : (memcmpct 0 (take sha_size sent) (hmac (drop sha_size sent)) == 0) ≡ true
  genuine =
      let (_, from) = memcmpct_iff (hmac text) (hmac text) refl (is_mac text).1 (is_mac text).1 in
      let zero_cmp : memcmpct 0 (hmac text) (hmac text) ≡ 0 = from refl in
      rw (hash_lem, rest_lem, zero_cmp) refl

  long : ltb (length sent) min_packet_size ≡ false
  long =
      let enough : min_packet_size ≤ length sent =
        omega (arith, length-append (hmac text) text, length-hmac) in
      ground (arith, enough)

  -- The buffer of the sampler has room for the whole packet.
  uncut : recv_from sent ≡ packet sent
  unfolding recv_from
  uncut =
      let size : length sent ≤ 1023 =
        omega (arith, length-append (hmac text) text, length-hmac, short) in
      ap packet (take_of_le 1023 sent size)

  payload_lem : drop min_packet_size sent ≡ metric
  payload_lem =
      let head = to_bytes 8 (stamp tv_sec) ++ to_bytes 4 nonce in
      let size : length (hmac text ++ head) ≡ min_packet_size =
        omega (arith, length-append (hmac text) head, length-hmac) in
      subst (λ p. drop min_packet_size p ≡ metric) (append_assoc (hmac text) head metric)
        (drop-append_of_length (hmac text ++ head) metric min_packet_size size)

  -- The packet passes the tests of its length and of its hash.
  received_lem :
      (w : Worker) (now : ℕ)
      → secure__receive hmac w now (recv_from sent)
        ≡ admit
            (record w { inflow = u64 (w.inflow + 1) })
            sent
            (verify_token w.statsd now (token_of sent))
  unfolding secure__receive
  received_lem w now = ap (secure__receive hmac w now) uncut ∙ rw (long, genuine) refl

  refused :
      (w : Worker) (later : ℕ)
      → Guards (token_of sent) w.statsd
      → w.statsd.now ≤ later
      → later < 2 ^ 64
      → later + 2 < tv_sec + w.statsd.drift
      → (w' : Worker) × (secure__receive hmac w later (recv_from sent) ≡ some (none, w'))
        × (w'.stats ≡ stats_inc Stat.replayed w.stats)
  unfolding admit
  refused w later g after fits soon =
      let t = token_of sent in
      let near : later < t.timestamp + w.statsd.drift = omega (arith, timestamp_lem) in
      let (w', e, counted) =
        go (verify_token w.statsd later t) near
          (verify_token-Verifies w.statsd later t g.valid fits) in
      (w', received_lem w later ∙ e, counted)
    where
      go :
          (r : Option (Verdict × StatsdSecure))
          → later < (token_of sent).timestamp + w.statsd.drift
          → Verifies w.statsd later (token_of sent) r
          → (w' : Worker) × (admit (record w { inflow = u64 (w.inflow + 1) }) sent r
              ≡ some (none, w'))
            × (w'.stats ≡ stats_inc Stat.replayed w.stats)
      go none near h = absurd h
      go (some (v, s')) near h =
          rw
            (verified-replayed w.statsd s' (token_of sent) later (token_of sent) v g after near h
              refl)
            (_, refl, refl)

  delivered :
      (w : Worker) (now : ℕ)
      → IsValid w.statsd
      → now < 2 ^ 64
      → tv_sec ≤ now + 2
      → now + 2 ≤ tv_sec + w.statsd.drift
      → IsKept w.statsd now ((tv_sec - 2) % w.statsd.drift)
      → remembers w.statsd (token_of sent) ≡ false
      → (w' : Worker) × (secure__receive hmac w now (recv_from sent) ≡ some (some metric, w'))
        × HasDelivered hmac tv_sec sent w w'
  unfolding admit
  delivered w now ok fits past soon kept unseen =
      let t = token_of sent in
      let (w', e, d) =
        go (verify_token w.statsd now t) (verify_token-Verifies w.statsd now t ok fits) in
      (w', received_lem w now ∙ e, d)
    where
      t : Token
      t = token_of sent

      judged : verdict now w.statsd t ≡ fresh
      judged =
          let on_time : ltb now t.timestamp ≡ false = ground (arith, timestamp_lem) in
          let near : ltb w.statsd.drift (now - t.timestamp) ≡ false =
            ground (arith, timestamp_lem) in
          rw (on_time, near, unseen) refl

      go :
          (r : Option (Verdict × StatsdSecure))
          → Verifies w.statsd now t r
          → (w' : Worker) × (admit (record w { inflow = u64 (w.inflow + 1) }) sent r
              ≡ some (some metric, w'))
            × HasDelivered hmac tv_sec sent w w'
      go none h = absurd h
      go (some (v, s')) (same, now', judge, _, stored) =
          let for_stamp =
            subst (λ n. IsKept w.statsd now (n % w.statsd.drift)) (sym timestamp_lem) kept in
          let accepted : v ≡ fresh = judge for_stamp ∙ judged in
          let (seen, before, _) = stored accepted in
          let w' = record w { inflow = u64 (w.inflow + 1); statsd = s' } in
          let guards : Guards t s' = record {
            valid = same.valid;
            seen = seen;
            past = omega (arith, before, now');
          } in
          rw accepted (
            w',
            ap (λ payload. some (some payload, w')) payload_lem,
            record {
              same = same;
              stats = refl;
              inflow = refl;
              again = λ between later fits' comes.
                  let limit : t.timestamp + s'.drift ≡ (tv_sec - 2) + w.statsd.drift =
                    omega (arith, timestamp_lem, same.drift) in
                  let (u, ran, gu, du, nu, near') =
                    receive_all-Guards hmac t between w' s'.now later
                      ((tv_sec - 2) + w.statsd.drift) guards (omega arith) limit fits' comes in
                  let (w'', e, counted) =
                    refused u later gu nu (omega arith) (omega (arith, du, same.drift)) in
                  (u, (w'', ran, e, counted));
            },
          )

-- A packet is delivered if the clock of the sampler is then between the packet's own time, two seconds
-- before the client's clock, and the drift after that: the worker hands on the metric as it was given to
-- the client and counts nothing but the flow. If the same packet comes again before the clock has come to
-- the packet's time plus the drift, after whatever turns of the worker, it is refused as replayed. For a
-- metric of at most 979 bytes, which the buffer of the sampler has room for, a keyed hash of 32 bytes
-- that both use, clocks below 2 ^ 64 that do not run back, and a valid sampler in which the token is not
-- remembered and its filter is still the one of its second.
pub build_packet-HasDelivered :
    (hmac : List ℕ → List ℕ) (tv_sec nonce : ℕ) (metric : List ℕ) (w : Worker) (now : ℕ)
    → IsMac hmac
    → length metric ≤ 979
    → tv_sec < 2 ^ 64
    → 2 ≤ tv_sec
    → IsValid w.statsd
    → now < 2 ^ 64
    → tv_sec ≤ now + 2
    → now + 2 ≤ tv_sec + w.statsd.drift
    → let sent = build_packet hmac tv_sec nonce metric in
      IsKept w.statsd now ((tv_sec - 2) % w.statsd.drift)
      → remembers w.statsd (token_of sent) ≡ false
      → (w' : Worker) × (secure__receive hmac w now (recv_from sent) ≡ some (some metric, w'))
        × HasDelivered hmac tv_sec sent w w'
unfolding build_packet
build_packet-HasDelivered hmac tv_sec nonce metric w now is_mac fits clock late =
    delivered hmac is_mac tv_sec nonce metric clock late fits w now
