-- ===== src/Secure.antt =====
-- The sampler of src/samplers/statsd-secure.c. A packet is the list of the bytes that were received:
-- a keyed hash of 32 bytes over the rest, a time of 8 bytes, 4 bytes of salt, and the messages. The
-- keyed hash of OpenSSL and the clock are given. A fault (a division by zero, an access outside of
-- the filters) is `none`.
pub mod Judge
pub mod Replay
pub mod Packet
pub mod Turns
pub mod Tests
use brubeck.Prelude.{
  ℕ, zero, suc, ◌+◌, ◌-◌, ◌*◌, ◌/◌, ◌%◌, ◌^◌, List, [], ◌∷◌, Option, none, some, Bool, true, false,
  ◌==◌, ltb, if◌then◌else◌, ◌>>=◌, u32, u64, length, take, drop,
}
use brubeck.Bloom.{Multibloom, multibloom_check, multibloom_reset}
use brubeck.Stats.{InternalStats, Stat, stats_inc}

abbrev pub sha_size : ℕ
sha_size = 32

abbrev pub max_packet_size : ℕ
max_packet_size = 1024

abbrev pub min_packet_size : ℕ
min_packet_size = sha_size + 12

-- `struct brubeck_statsd_secure`: the filters, the second of the last token, and the drift.
pub record StatsdSecure : Type 0 where
  pub replays : Multibloom
  pub now : ℕ
  pub drift : ℕ

-- Numbers in the order of bytes of the host, the lowest first.
abbrev pub from_bytes : List ℕ → ℕ
from_bytes [] = 0
from_bytes (b ∷ bs) = b + from_bytes bs * 256

-- The exclusive or of two bytes, by their bits.
unfoldable pub xor : ℕ → ℕ → ℕ → ℕ
xor zero a b = 0
xor (suc w) a b = (if a % 2 == b % 2 then 0 else 1) + xor w (a / 2) (b / 2) * 2

-- The inclusive or.
unfoldable pub or : ℕ → ℕ → ℕ → ℕ
or zero a b = 0
or (suc w) a b = (if a % 2 + b % 2 == 0 then 0 else 1) + or w (a / 2) (b / 2) * 2

-- `memcmpct` from a `cmp` on: every byte is read whatever the ones before were.
unfoldable pub memcmpct : ℕ → List ℕ → List ℕ → ℕ
memcmpct cmp [] _ = cmp
memcmpct cmp (x ∷ xs) [] = cmp
memcmpct cmp (x ∷ xs) (y ∷ ys) = memcmpct (or 8 cmp (xor 8 x y)) xs ys

-- What `verify_token` reads of the packet.
pub record Token : Type 0 where
  pub timestamp : ℕ
  pub ha : ℕ
  pub hb : ℕ

unfoldable pub token_of : List ℕ → Token
token_of buffer = record {
  timestamp = from_bytes (take 8 (drop sha_size buffer));
  ha = from_bytes (take 4 buffer);
  hb = from_bytes (take 4 (drop 4 buffer));
}

-- 0, or the counter of the reason for -1.
pub data Verdict : Type 0 where
  fresh : Verdict
  rejected : Stat → Verdict

-- Each second begins with an empty filter for its tokens.
unfoldable pub new_second : StatsdSecure → ℕ → Option StatsdSecure
new_second s tv_sec = if tv_sec == s.now then some s else if s.drift == 0 then none else (do
  replays ← multibloom_reset s.replays (tv_sec % s.drift)
  some (record s { now = tv_sec; replays = replays }))

-- `timestamp` is compared with `now` as a `uint64_t`.
unfoldable pub check_token : StatsdSecure → Token → Option (Verdict × StatsdSecure)
check_token s t =
    if ltb (u64 s.now) t.timestamp
    then some (rejected Stat.from_future, s)
    else if ltb s.drift (u64 s.now - t.timestamp)
    then some (rejected Stat.delayed, s)
    else if s.drift == 0
    then none
    else (do
      (seen, replays) ← multibloom_check s.replays (t.timestamp % s.drift) t.ha t.hb
      some (if seen then rejected Stat.replayed else fresh, record s { replays = replays }))

unfoldable pub verify_token : StatsdSecure → ℕ → Token → Option (Verdict × StatsdSecure)
verify_token s tv_sec t = do s' ← new_second s tv_sec; check_token s' t

-- What `recvfrom` gives: an interrupted call, another failure, or a packet.
pub data Received : Type 0 where
  again failed_read : Received
  packet : List ℕ → Received

-- What `recvfrom` gives of a datagram: the first `sizeof(buffer) - 1` bytes.
unfoldable pub recv_from : List ℕ → Received
recv_from datagram = packet (take (max_packet_size - 1) datagram)

-- The sampler with the counters it writes.
pub record Worker : Type 0 where
  pub statsd : StatsdSecure
  pub inflow : ℕ
  pub stats : InternalStats

abbrev pub inc_stat : Worker → Stat → Worker
inc_stat w stat = record w { stats = stats_inc stat w.stats }

-- What goes on to `brubeck_statsd_packet_parse`, if the token is fresh.
unfoldable pub admit :
    Worker → List ℕ → Option (Verdict × StatsdSecure) → Option (Option (List ℕ) × Worker)
admit w buffer none = none
admit w buffer (some (fresh, s)) =
    some (some (drop min_packet_size buffer), record w { statsd = s })
admit w buffer (some (rejected stat, s)) = some (none, inc_stat (record w { statsd = s }) stat)

-- One turn of the loop of `statsd_secure__thread`.
unfoldable pub secure__receive :
    (List ℕ → List ℕ) → Worker → ℕ → Received → Option (Option (List ℕ) × Worker)
secure__receive hmac w tv_sec again = some (none, w)
secure__receive hmac w tv_sec failed_read = some (none, inc_stat w Stat.errors)
secure__receive hmac w tv_sec (packet buffer) =
    let w' = record w { inflow = u64 (w.inflow + 1) } in
    if ltb (length buffer) min_packet_size
    then some (none, inc_stat w' Stat.failed)
    else if memcmpct 0 (take sha_size buffer) (hmac (drop sha_size buffer)) == 0
    then admit w' buffer (verify_token w'.statsd tv_sec (token_of buffer))
    else some (none, inc_stat w' Stat.failed)
