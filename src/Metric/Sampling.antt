-- ===== src/Metric/Sampling.antt =====
-- The sample functions of src/metric.c. The callback of the backend is not called here: what it is
-- given is returned as a list of keys and values, in order.
use brubeck.Prelude.{
  ℕ, List, [], ◌∷◌, ◌++◌, Option, none, some, ◌≡◌, ◌≢◌, ◌∙◌, take, codes, if◌then◌else◌, ◌>>=◌,
  arith, Bool,
}
use brubeck.Value.{Double}
use brubeck.Stats.{InternalStats, internal__sample, internal__report}
use brubeck.Histogram.{HistoSample, histo_sample}
use brubeck.Histogram.Sorted.{Compare}
use brubeck.Metric.{
  As, as_other, MetricType, as_gauge, as_meter, as_counter, as_histogram, Metric, expire_active,
}
use brubeck.Metric.Record.{
  Call, HasMember, increases, last_value, counter_of-increases, record_all, record_all-accumulated,
  meter_of,
}

-- What one call of a sample function gives to the backend.
abbrev pub Report : Type 0 → Type 0
Report V = List (List ℕ × V)

module _ {V : Type 0} where
  -- `WITH_SUFFIX`
  abbrev pub with_suffix : Metric V → List ℕ → List ℕ
  with_suffix m suffix = take m.key_len m.key ++ suffix

module _ {V : Type 0} ⦃d : Double V⦄ where
  unfoldable pub gauge__sample : Metric V → Option (Report V × Metric V)
  gauge__sample m = elim m.as_ [ as_gauge v ↦ some ((m.key, v) ∷ [], m) | _ ↦ none ]

  unfoldable pub meter__sample : Metric V → Option (Report V × Metric V)
  meter__sample m = elim m.as_ [
    | as_meter v ↦ some ((m.key, v) ∷ [], record m { as_ = as_meter (d.of_nat 0) })
    | _ ↦ none
  ]

  unfoldable pub counter__sample : Metric V → Option (Report V × Metric V)
  counter__sample m = elim m.as_ [
    | as_counter v previous ↦
        some ((m.key, v) ∷ [], record m { as_ = as_counter (d.of_nat 0) previous })
    | _ ↦ none
  ]

  -- The lines of a histogram; `freq` is the `sample_freq` of the backend.
  unfoldable pub histogram__report : Metric V → ℕ → HistoSample V → Report V
  histogram__report m freq s =
      (with_suffix m (codes ".count"), s.count)
      ∷ (with_suffix m (codes ".count_ps"), d.div s.count (d.of_nat freq))
      ∷ (if d.eq s.count (d.of_nat 0)
          then []
          else (with_suffix m (codes ".min"), s.min)
            ∷ (with_suffix m (codes ".max"), s.max)
            ∷ (with_suffix m (codes ".sum"), s.sum)
            ∷ (with_suffix m (codes ".mean"), s.mean)
            ∷ (with_suffix m (codes ".median"), s.median)
            ∷ (with_suffix m (codes ".percentile.75"), s.p75)
            ∷ (with_suffix m (codes ".percentile.95"), s.p95)
            ∷ (with_suffix m (codes ".percentile.98"), s.p98)
            ∷ (with_suffix m (codes ".percentile.99"), s.p99)
            ∷ (with_suffix m (codes ".percentile.999"), s.p999)
            ∷ [])

  -- `brubeck_internal__sample`, which reads through `as.other`: a fault while that is null.
  unfoldable pub other_sample :
      Metric V → As V → InternalStats → Option (Report V × Metric V × InternalStats)
  other_sample m (as_other Bool.true) stats =
      let stats' = internal__sample stats in
      some (
        internal__report (take m.key_len m.key) stats'.sample,
        record m { expire = expire_active },
        stats',
      )
  other_sample m _ stats = none

  module _ (qsort : Compare V → List V → List V) where
    unfoldable pub histogram__sample : Metric V → ℕ → Option (Report V × Metric V)
    unfolding histogram__report
    histogram__sample m freq = elim m.as_ [
      | as_histogram h ↦ (do
        (sample, h') ← histo_sample qsort h
        some (histogram__report m freq sample, record m { as_ = as_histogram h' }))
      | _ ↦ none
    ]

    -- The column `sample` of `_prototypes`. The statistics are those that `as.other` points to.
    unfoldable pub metric_sample :
        Metric V → ℕ → InternalStats → Option (Report V × Metric V × InternalStats)
    unfolding gauge__sample meter__sample counter__sample other_sample
    metric_sample m freq stats = elim m.type [
      | MetricType.gauge ↦ gauge__sample m >>= λ r. some (r.0, r.1, stats)
      | MetricType.meter ↦ meter__sample m >>= λ r. some (r.0, r.1, stats)
      | MetricType.counter ↦ counter__sample m >>= λ r. some (r.0, r.1, stats)
      | MetricType.histo ↦ histogram__sample m freq >>= λ r. some (r.0, r.1, stats)
      | MetricType.timer ↦ histogram__sample m freq >>= λ r. some (r.0, r.1, stats)
      | MetricType.internal_stats ↦ other_sample m m.as_ stats
    ]

    -- A meter that starts a period at zero reports the sum of what was recorded in it, and is as
    -- before the period: no period counts what belongs to another.
    pub meter_period :
        (m : Metric V) (calls : List (Call V)) (freq : ℕ) (stats : InternalStats)
        → m.type ≡ MetricType.meter
        → m.as_ ≡ as_meter (d.of_nat 0)
        → (record_all m calls >>= λ m'. metric_sample m' freq stats)
          ≡ some ((m.key, meter_of (d.of_nat 0) calls) ∷ [], m, stats)
    unfolding metric_sample
    meter_period m calls freq stats t e =
        let no_other : m.type ≢ MetricType.internal_stats = rw t (cc) in
        let member : HasMember m.type m.as_ = rw (t, e) tt in
        let total = meter_of (d.of_nat 0) calls in
        let summed : record_all m calls ≡ some (record m { as_ = as_meter total }) =
          (record_all-accumulated m calls no_other member).0 ∙ rw e in
        rw summed (ground arith)

    -- A counter reports the increases of the period and starts the next one at zero, from the last
    -- value that was recorded.
    pub counter_period :
        (m : Metric V) (previous : V) (calls : List (Call V)) (freq : ℕ) (stats : InternalStats)
        → m.type ≡ MetricType.counter
        → m.as_ ≡ as_counter (d.of_nat 0) previous
        → (record_all m calls >>= λ m'. metric_sample m' freq stats)
          ≡ some (
            (m.key, increases previous calls) ∷ [],
            record m { as_ = as_counter (d.of_nat 0) (last_value previous calls) },
            stats,
          )
    unfolding metric_sample
    counter_period m previous calls freq stats t e =
        let no_other : m.type ≢ MetricType.internal_stats = rw t (cc) in
        let member : HasMember m.type m.as_ = rw (t, e) tt in
        let summed : record_all m calls
            ≡ some (record m {
              as_ = as_counter (increases previous calls) (last_value previous calls);
            }) =
          (record_all-accumulated m calls no_other member).0
          ∙ rw e (rw (counter_of-increases (d.of_nat 0) previous calls)) in
        rw summed (ground arith)
