-- ===== src/Metric/Tests.antt =====
-- Metrics at whole values: runs, and the theorems at concrete calls.
use brubeck.Prelude.{ℕ, ◌≡◌, refl, List, [], ◌∷◌, ◌++◌, map, some, codes, ◌>>=◌}
use brubeck.Value.Whole.{whole}
use brubeck.Stats.{InternalStats, Counters}
use brubeck.Histogram.InsertionSort.{insertion_sort}
use brubeck.Metric.{MetricType, As, as_counter, as_meter, Metric, metric_record}
use brubeck.Metric.Means.{Means, record_all-Means}
use brubeck.Metric.Periods.{
  Step, record_call, sample, run, total, periods, pending, all_of, calls_of, run-periods,
}
use brubeck.Metric.Record.{Call, HasMember, record_all, increases, last_value}
use brubeck.Metric.Sampling.{metric_sample, counter_period}

abbrev call : ℕ → ℕ → ℕ → Call ℕ
call value freq mods = record { value = value; freq = freq; mods = mods }

abbrev of_type : MetricType → As ℕ → Metric ℕ
of_type type as_ = record { key = codes "a.b"; key_len = 3; type = type; expire = 2; as_ = as_ }

abbrev calls : List (Call ℕ)
calls = call 5 1 0 ∷ call 8 1 0 ∷ call 3 1 0 ∷ []

-- 5 is the first value; 8 is 3 more; at 3 the counter was reset.
counts :
    record_all (of_type MetricType.counter (as_counter 0 0)) calls
    ≡ some (of_type MetricType.counter (as_counter 6 3))
unfolding record_all metric_record
counts = refl

abbrev idle : InternalStats
idle = record { sample_freq = 10; live = none_counted; sample = none_counted }
  where
    none_counted : Counters
    none_counted = record {
      metrics = 0;
      errors = 0;
      unique_keys = 0;
      failed = 0;
      from_future = 0;
      delayed = 0;
      replayed = 0;
    }

counter_period_example :
    (record_all (of_type MetricType.counter (as_counter 0 2)) calls >>= λ m.
    metric_sample insertion_sort m 10 idle)
    ≡ some (
      (codes "a.b", increases 2 calls) ∷ [],
      of_type MetricType.counter (as_counter 0 (last_value 2 calls)),
      idle,
    )
counter_period_example =
    counter_period insertion_sort (of_type MetricType.counter (as_counter 0 2)) 2 calls 10 idle refl
      refl

record_all-Means_example :
    let m = of_type MetricType.counter (as_counter 4 2) in
    (a : As ℕ) × (record_all m calls ≡ some (record m { as_ = a }))
    × HasMember MetricType.counter a
    × Means (as_counter 4 2) calls a
record_all-Means_example =
    record_all-Means (of_type MetricType.counter (as_counter 4 2)) calls (λ e. absurd cc) tt

abbrev meter_steps : List (Step ℕ)
meter_steps =
    record_call (call 3 1 0)
    ∷ sample
    ∷ record_call (call 4 2 0)
    ∷ record_call (call 1 1 0)
    ∷ sample
    ∷ record_call (call 7 1 0)
    ∷ []

abbrev zero_meter : Metric ℕ
zero_meter = of_type MetricType.meter (as_meter 0)

run_values :
    run insertion_sort 10 idle meter_steps zero_meter
    ≡ some ((codes "a.b", 3) ∷ (codes "a.b", 9) ∷ [], of_type MetricType.meter (as_meter 7))
unfolding run metric_record metric_sample
run_values = refl

run-periods_example :
    (run insertion_sort 10 idle meter_steps zero_meter
      ≡ some (
        map (λ p. (codes "a.b", total p)) (periods [] meter_steps),
        of_type MetricType.meter (as_meter (total (pending [] meter_steps))),
      ))
    × (all_of (periods [] meter_steps) ++ pending [] meter_steps ≡ calls_of meter_steps)
run-periods_example = run-periods insertion_sort 10 idle meter_steps zero_meter refl refl
