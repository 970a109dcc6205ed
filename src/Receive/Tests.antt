-- ===== src/Receive/Tests.antt =====
-- Two buffers at an empty server.
use brubeck.Prelude.{ℕ, arith, ◌≡◌, refl, List, [], ◌∷◌, Option, none, some, codes}
use brubeck.Value.Whole.{whole}
use brubeck.Stats.{Stat, get, stats_inc}
use brubeck.HashTable.Assoc.{Entries, assoc}
use brubeck.Server.{metric_find}
use brubeck.Server.Tests.{empty_server}
use brubeck.Slab.{slab_init, push_node, slab_alloc}
use brubeck.City.{city_hash32}
use brubeck.Metric.{new_metric, metric_record}
use brubeck.Statsd.Number.{parse_float, parse_sign, parse_decimal, parse_digits, parse_fraction}
use brubeck.Statsd.Message.{msg_parse, scan_key, parse_body, parse_type, parse_rate}
use brubeck.Packet.{inc, packet_parse}
use brubeck.Packet.Tests.{libc, packet}
use brubeck.Receive.{
  RecvMany, received_many, many_failed, Receiver, left, run_recvmsg, run_recvmmsg,
}
use brubeck.Receive.Many.{singly, receiver_of, run_recvmmsg-singly}
use brubeck.Receive.Stale.{packet_parse-left}

abbrev worker : Receiver ℕ Entries
worker = record { server = empty_server; inflow = 0 }

abbrev calls : List RecvMany
calls = received_many (packet ∷ codes "a:1|c" ∷ []) ∷ many_failed ∷ []

run_recvmmsg-singly_example :
    receiver_of (run_recvmmsg assoc libc 0 calls worker ([] ∷ [] ∷ []))
    ≡ run_recvmsg assoc libc 0 (singly calls) worker
run_recvmmsg-singly_example =
    run_recvmmsg-singly assoc libc 0 calls worker ([] ∷ [] ∷ []) (refl, (tt, tt)) (omega arith)

packet_parse-left_example :
    packet_parse assoc libc empty_server 0 (left packet) ≡ some (inc empty_server Stat.errors)
packet_parse-left_example = packet_parse-left assoc libc empty_server 0 packet

-- Two messages in one call, and one in the next: the inflow counts a fourth, and the message of the
-- second buffer is counted as an error when its place is not filled.
abbrev counts : Option (Receiver ℕ Entries) → List ℕ
counts none = []
counts (some w) =
    w.inflow
    ∷ get Stat.metrics w.server.internal_stats.live
    ∷ get Stat.errors w.server.internal_stats.live
    ∷ []

stale_counts :
    counts (
      receiver_of (
        run_recvmmsg assoc libc 0
          (received_many (codes "a:1|c" ∷ codes "b:1|c" ∷ [])
            ∷ received_many (codes "c:1|c" ∷ [])
            ∷ [])
          worker
          ([] ∷ [] ∷ [])))
    ≡ 4 ∷ 3 ∷ 1 ∷ []
unfolding run_recvmmsg packet_parse msg_parse scan_key parse_body parse_float parse_sign
    parse_decimal parse_digits parse_fraction parse_type parse_rate metric_find slab_init push_node
    slab_alloc new_metric city_hash32 stats_inc metric_record
stale_counts = refl
