-- ===== src/Packet.antt =====
-- `brubeck_statsd_packet_parse` of src/samplers/statsd.c: the messages of a packet are parsed, found
-- and recorded one after the other. A packet is the list of its bytes; the byte behind it, where the
-- parser writes a zero, belongs to the buffer. A fault is `none`.
pub mod Lines
pub mod Handle
pub mod Count
pub mod Tests
use brubeck.Prelude.{
  ℕ, zero, suc, List, [], ◌∷◌, Option, none, some, ◌==◌, if◌then◌else◌, ◌>>=◌, length, get_elem?,
  set,
}
use brubeck.Value.{Double}
use brubeck.Stats.{Stat, stats_inc}
use brubeck.Metric.{metric_record}
use brubeck.HashTable.{CkHt}
use brubeck.Server.{Server, metric_find}
use brubeck.Statsd.Number.{Libc}
use brubeck.Statsd.Message.{Msg, msg_parse}

-- The bytes up to `memchr` of a newline, or all of them, and those behind it.
unfoldable pub cut : List ℕ → List ℕ × List ℕ
cut [] = ([], [])
cut (c ∷ cs) = let (line, rest) = cut cs in if c == b'\n' then ([], cs) else (c ∷ line, rest)

abbrev pub inc : {V T : Type 0} → Server V T → Stat → Server V T
inc s stat = record s { internal_stats = stats_inc stat s.internal_stats }

module _ {V T : Type 0} ⦃d : Double V⦄ (ck : CkHt T) (libc : Libc V) where
  -- `brubeck_metric_record`, unless there is no metric.
  unfoldable pub recorded : Server V T → Msg V → Option ℕ → Option (Server V T)
  recorded s msg none = some s
  recorded s msg (some id) = do
    m ← get_elem? s.store id
    m' ← metric_record m msg.value msg.sample_freq msg.modifiers
    some (record s { store = set s.store id m' })

  -- What follows the parsing of a message.
  unfoldable pub handled : Server V T → Option (Msg V) → Option (Server V T)
  unfolding recorded
  handled s none = some (inc s Stat.errors)
  handled s (some msg) = do
    (found, s') ← metric_find ck (inc s Stat.metrics) msg.key msg.key_len msg.type
    recorded s' msg found

  -- The loop, for so many turns at most; `none` is also when they are used up. `before` is the byte in
  -- front of `buffer`: from the second turn on it is the newline that was overwritten by a zero.
  unfoldable pub packet_from : ℕ → Server V T → ℕ → List ℕ → Option (Server V T)
  unfolding cut handled
  packet_from zero s before buffer = none
  packet_from (suc turns) s before [] = some s
  packet_from (suc turns) s before (c ∷ cs) =
      let (line, rest) = cut (c ∷ cs) in
      do s' ← handled s (msg_parse libc before line); packet_from turns s' 0 rest

  -- Every turn takes a byte at least.
  unfoldable pub packet_parse : Server V T → ℕ → List ℕ → Option (Server V T)
  unfolding packet_from
  packet_parse s before packet = packet_from (suc (length packet)) s before packet
