-- ===== src/Stats/Tests.antt =====
-- The counters at concrete steps.
use brubeck.Prelude.{◌+◌, ◌%◌, ◌^◌, ◌≡◌, ◌≢◌, refl, List, [], ◌∷◌}
use brubeck.Stats.{
  Counters, InternalStats, Stat, get, stats_inc, stats_swap, stats_fetch, internal__sample,
}
use brubeck.Stats.Count.{
  Step, inc, swap, fetch, pass, run, counted, taken, TakesNoKeys, run-counted,
}

abbrev zero_counters : Counters
zero_counters = record {
  metrics = 0;
  errors = 0;
  unique_keys = 0;
  failed = 0;
  from_future = 0;
  delayed = 0;
  replayed = 0;
}

abbrev start : InternalStats
start = record {
  sample_freq = 10;
  live = record zero_counters { metrics = 4; unique_keys = 2 };
  sample = zero_counters;
}

abbrev steps : List Step
steps =
    inc Stat.metrics
    ∷ inc Stat.errors
    ∷ swap Stat.metrics
    ∷ inc Stat.metrics
    ∷ inc Stat.metrics
    ∷ inc Stat.unique_keys
    ∷ fetch
    ∷ swap Stat.errors
    ∷ []

taken_and_live :
    (taken Stat.metrics steps start ≡ 5) × (get Stat.metrics (run steps start).live ≡ 2)
unfolding stats_inc stats_swap stats_fetch
taken_and_live = (refl, refl)

steps-TakesNoKeys : TakesNoKeys steps
steps-TakesNoKeys = (
  λ e. absurd cc,
  (
    λ e. absurd cc,
    (
      λ e. absurd cc,
      (λ e. absurd cc, (λ e. absurd cc, (λ e. absurd cc, (λ e. absurd cc, (λ e. absurd cc, tt))))),
    ),
  ),
)

run-counted_example :
    ((stat : Stat)
      → stat ≢ Stat.unique_keys
      → (taken stat steps start + get stat (run steps start).live) % 2 ^ 32
        ≡ (get stat start.live + counted stat steps) % 2 ^ 32)
    × ((run steps start).live.unique_keys % 2 ^ 32
        ≡ (start.live.unique_keys + counted Stat.unique_keys steps) % 2 ^ 32)
    × ((run (fetch ∷ []) (run steps start)).sample.unique_keys ≡ (run steps start).live.unique_keys)
    × (run pass (run steps start) ≡ internal__sample (run steps start))
run-counted_example = run-counted steps start steps-TakesNoKeys
