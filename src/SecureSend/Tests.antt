-- ===== src/SecureSend/Tests.antt =====
-- A packet of the client at a new sampler, with a sum for the keyed hash.
use brubeck.Prelude.{ℕ, ◌≡◌, refl, arith, List, some, false, codes, inr}
use brubeck.Bloom.{multibloom_new, position, test_bit}
use brubeck.Secure.{Worker, recv_from, token_of, secure__receive}
use brubeck.Secure.Judge.{remembers}
use brubeck.Secure.Tests.{worker, start-IsValid, length_mac, length_mac-IsMac}
use brubeck.SecureSend.{build_packet}
use brubeck.SecureSend.Delivered.{HasDelivered, build_packet-HasDelivered}

abbrev metric : List ℕ
metric = codes "hits:1|c"

abbrev sent : List ℕ
sent = build_packet length_mac 1004 77 metric

unseen : remembers worker.statsd (token_of sent) ≡ false
unfolding token_of build_packet multibloom_new position test_bit
unseen = refl

build_packet-HasDelivered_example :
    (w' : Worker) × (secure__receive length_mac worker 1003 (recv_from sent)
      ≡ some (some metric, w'))
    × HasDelivered length_mac 1004 sent worker w'
build_packet-HasDelivered_example =
    build_packet-HasDelivered length_mac 1004 77 metric worker 1003 length_mac-IsMac (omega arith)
      (omega arith) (omega arith) start-IsValid (omega arith) (omega arith) (omega arith)
      (inr (omega arith)) unseen
