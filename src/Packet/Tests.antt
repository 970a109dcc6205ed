-- ===== src/Packet/Tests.antt =====
-- Packets of several messages at an empty server.
use brubeck.Prelude.{
  ℕ, ◌+◌, ◌^◌, ◌≡◌, refl, arith, List, [], ◌∷◌, Option, none, some, codes, length,
}
use brubeck.Value.Whole.{whole}
use brubeck.Slab.{slab_init, push_node, slab_alloc}
use brubeck.Stats.{Stat, get, stats_inc}
use brubeck.Metric.{Metric, metric_record, new_metric, as_meter, as_gauge}
use brubeck.HashTable.Assoc.{Entries, assoc, assoc-IsTable}
use brubeck.Server.{Server, metric_find}
use brubeck.Server.Tests.{server_name, empty_server, empty_server-IsValid}
use brubeck.City.{city_hash32}
use brubeck.Statsd.Number.{
  Libc, parse_float, parse_sign, parse_decimal, parse_digits, parse_fraction,
}
use brubeck.Statsd.Message.{msg_parse, scan_key, parse_body, parse_type, parse_rate}
use brubeck.Packet.{packet_parse}
use brubeck.Packet.Lines.{lines, join, handle_lines, packet_parse-lines}
use brubeck.Packet.Handle.{HandlesAll}
use brubeck.Packet.Count.{refusals, acceptances, AllForeign, packet_parse-Handles}

abbrev pub libc : Libc ℕ
libc = record { pow = λ a b. a ^ b; strtod = λ text. (0, text) }

abbrev pub messages : List (List ℕ)
messages = codes "hits:3|c" ∷ codes "temp:20|g" ∷ codes "bad line" ∷ codes "hits:4|c" ∷ []

abbrev pub packet : List ℕ
packet = join messages

abbrev after : Option (Server ℕ Entries)
after = packet_parse assoc libc empty_server 0 packet

abbrev values_of : List (Metric ℕ) → List (List ℕ × ℕ)
values_of [] = []
values_of (m ∷ ms) = elim m.as_ [
  | as_meter v ↦ (m.key, v) ∷ values_of ms
  | as_gauge v ↦ (m.key, v) ∷ values_of ms
  | _ ↦ values_of ms
]

abbrev summary : Option (Server ℕ Entries) → List (List ℕ × ℕ) × List ℕ
summary none = ([], [])
summary (some s) = (
  values_of s.store,
  get Stat.metrics s.internal_stats.live
      ∷ get Stat.errors s.internal_stats.live
      ∷ get Stat.unique_keys s.internal_stats.live
      ∷ [],
)

-- Two metrics, the meter with the sum; three messages and one error.
packet_values : summary after ≡ ((codes "hits", 7) ∷ (codes "temp", 20) ∷ [], 3 ∷ 1 ∷ 2 ∷ [])
unfolding packet_parse msg_parse scan_key parse_body parse_float parse_sign parse_decimal
    parse_digits parse_fraction parse_type parse_rate metric_find slab_init push_node slab_alloc
    new_metric city_hash32 stats_inc metric_record
packet_values = refl

packet_parse-lines_example :
    packet_parse assoc libc empty_server 0 packet
    ≡ handle_lines assoc libc empty_server 0 (lines packet)
packet_parse-lines_example = packet_parse-lines assoc libc empty_server 0 packet

foreign : AllForeign assoc server_name libc 0 (lines packet)
unfolding msg_parse scan_key parse_body parse_float parse_sign parse_decimal parse_digits
    parse_fraction parse_type parse_rate
foreign = (λ msg e f. cc, (λ msg e f. cc, (λ msg e f. cc, (λ msg e f. cc, tt))))

packet_parse-Handles_example :
    HandlesAll assoc server_name empty_server
      (refusals assoc server_name libc 0 (lines packet))
      (acceptances assoc server_name libc 0 (lines packet))
      (packet_parse assoc libc empty_server 0 packet)
    × (refusals assoc server_name libc 0 (lines packet)
          + acceptances assoc server_name libc 0 (lines packet)
        ≡ length (lines packet))
packet_parse-Handles_example =
    packet_parse-Handles assoc server_name libc empty_server 0 packet empty_server-IsValid
      assoc-IsTable (omega arith) foreign
