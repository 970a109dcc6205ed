-- ===== src/EndToEnd/Reported.antt =====
-- What a backend reports of the messages of a packet.
use brubeck.Prelude.{ℕ, ◌≡◌, ◌≢◌, refl, ◌∙◌, List, [], ◌∷◌, Option, none, some, All, get_elem?, set}
use brubeck.Value.{Double}
use brubeck.Stats.{InternalStats}
use brubeck.Histogram.Sorted.{Compare}
use brubeck.Metric.{MetricType, Metric, as_meter, internal_stats}
use brubeck.Metric.Record.{Call, HasMember, meter_of}
use brubeck.Metric.Sampling.{metric_sample}
use brubeck.HashTable.{CkHt}
use brubeck.Server.{Server}
use brubeck.Statsd.Number.{Libc}
use brubeck.Packet.{packet_parse}
use brubeck.Tick.Reports.{sampled_one}
use brubeck.EndToEnd.{Sent, packet_of, calls_of, IsSent}
use brubeck.EndToEnd.Recorded.{with, Has, Reaches, packet_parse-Has}

module _ {V T : Type 0} ⦃d : Double V⦄ (ck : CkHt T) (libc : Libc V)
    (qsort : Compare V → List V → List V) (freq : ℕ) where
  -- The report of the meter after the packet, and the store that is left.
  abbrev pub Reports : ℕ → Metric V → List (Call V) → InternalStats → Option (Server V T) → Type 0
  Reports i m calls stats none = ⊥
  Reports i m calls stats (some s) =
      sampled_one qsort freq i s.store stats
      ≡ some (record {
        report = (m.key, meter_of (d.of_nat 0) calls) ∷ [];
        store = set s.store i (with ck libc m (as_meter (d.of_nat 0)));
        stats = stats;
      })

  Has-Reports :
      (s s' : Server V T) (i : ℕ) (m : Metric V) (calls : List (Call V)) (stats : InternalStats)
      → m.type ≡ MetricType.meter
      → m.as_ ≡ as_meter (d.of_nat 0)
      → Has ck libc s s' i m calls
      → Reports i m calls stats (some s')
  unfolding sampled_one metric_sample
  Has-Reports s s' i m calls stats t e h =
      let total = meter_of (d.of_nat 0) calls in
      let at : get_elem? s'.store i ≡ some (with ck libc m (as_meter total)) =
        h.there ∙ rw e refl in
      rw at (rw t refl)

  -- A packet of well formed messages of one key, which has a meter that starts a period at zero: the next
  -- time that the meter is sampled the backend is given the key once, with the sum of the values of the
  -- messages, each times its frequency, and the meter starts again at zero.
  pub packet_parse-Reports :
      (key : List ℕ) (x : Sent V) (ms : List (Sent V)) (s : Server V T) (before i : ℕ)
      (m : Metric V) (stats : InternalStats)
      → All (IsSent libc key) (x ∷ ms)
      → ck.get_spmc s.metrics key ≡ some i
      → get_elem? s.store i ≡ some m
      → m.type ≡ MetricType.meter
      → m.as_ ≡ as_meter (d.of_nat 0)
      → Reports i m
          (calls_of libc (x ∷ ms))
          stats
          (packet_parse ck libc s before (packet_of (x ∷ ms)))
  packet_parse-Reports key x ms s before i m stats all entry at t e =
      let no_other : m.type ≢ internal_stats = rw t (cc) in
      let member : HasMember m.type m.as_ = rw (t, e) tt in
      go (packet_parse ck libc s before (packet_of (x ∷ ms)))
        (packet_parse-Has ck libc key x ms s before i m all entry at no_other member)
    where
      go :
          (r : Option (Server V T))
          → Reaches ck libc s i m (calls_of libc (x ∷ ms)) r
          → Reports i m (calls_of libc (x ∷ ms)) stats r
      go none h = h
      go (some s') h = Has-Reports s s' i m (calls_of libc (x ∷ ms)) stats t e h
