-- ===== src/Stats/Count.antt =====
-- No event that src/server.h counts is lost or counted twice, however the increments fall between
-- the samples of src/internal_sampler.c.
use brubeck.Prelude.{ℕ, ◌+◌, ◌*◌, ◌%◌, ◌^◌, ◌≡◌, ◌≢◌, refl, List, [], ◌∷◌, All, arith}
use brubeck.Stats.{InternalStats, Stat, get, stats_inc, stats_swap, stats_fetch, internal__sample}

-- A step of a worker, which counts an event, or of the sampler, which takes one counter or, where
-- that is the number of the unique keys, only reads it.
pub data Step : Type 0 where
  inc : Stat → Step
  swap : Stat → Step
  fetch : Step

-- The steps of the sampler for one counter after the other, as internal__sample makes them.
abbrev pub pass : List Step
pass =
    swap Stat.metrics
    ∷ swap Stat.errors
    ∷ fetch
    ∷ swap Stat.failed
    ∷ swap Stat.from_future
    ∷ swap Stat.delayed
    ∷ swap Stat.replayed
    ∷ []

abbrev pub step : Step → InternalStats → InternalStats
step (inc stat) s = stats_inc stat s
step (swap stat) s = stats_swap stat s
step fetch s = stats_fetch Stat.unique_keys s

abbrev pub run : List Step → InternalStats → InternalStats
run [] s = s
run (x ∷ xs) s = run xs (step x s)

abbrev same : Stat → Stat → ℕ
same Stat.metrics Stat.metrics = 1
same Stat.errors Stat.errors = 1
same Stat.unique_keys Stat.unique_keys = 1
same Stat.failed Stat.failed = 1
same Stat.from_future Stat.from_future = 1
same Stat.delayed Stat.delayed = 1
same Stat.replayed Stat.replayed = 1
same _ _ = 0

-- How often a counter is incremented, and the sum of what the sampler takes from it.
abbrev pub counted : Stat → List Step → ℕ
counted stat [] = 0
counted stat (inc t ∷ xs) = same stat t + counted stat xs
counted stat (swap t ∷ xs) = counted stat xs
counted stat (fetch ∷ xs) = counted stat xs

abbrev pub taken : Stat → List Step → InternalStats → ℕ
taken stat [] s = 0
taken stat (inc t ∷ xs) s = taken stat xs (stats_inc t s)
taken stat (swap t ∷ xs) s =
    same stat t * get stat (stats_swap t s).sample + taken stat xs (stats_swap t s)
taken stat (fetch ∷ xs) s = taken stat xs (stats_fetch Stat.unique_keys s)

inc_lem :
    (stat t : Stat) (s : InternalStats)
    → get stat (stats_inc t s).live % 2 ^ 32 ≡ (get stat s.live + same stat t) % 2 ^ 32
unfolding stats_inc
inc_lem stat t s = ground arith

swap_lem :
    (stat t : Stat) (s : InternalStats)
    → get stat (stats_swap t s).live + same stat t * get stat (stats_swap t s).sample
      ≡ get stat s.live
unfolding stats_swap
swap_lem stat t s = ground arith

counted_lem :
    (stat : Stat) (xs : List Step) (s : InternalStats)
    → (taken stat xs s + get stat (run xs s).live) % 2 ^ 32
      ≡ (get stat s.live + counted stat xs) % 2 ^ 32
unfolding stats_fetch
counted_lem stat [] s = omega arith
counted_lem stat (inc t ∷ xs) s =
    omega (arith, counted_lem stat xs (stats_inc t s), inc_lem stat t s)
counted_lem stat (swap t ∷ xs) s =
    omega (arith, counted_lem stat xs (stats_swap t s), swap_lem stat t s)
counted_lem stat (fetch ∷ xs) s = counted_lem stat xs (stats_fetch Stat.unique_keys s)

-- The steps of the threads: the sampler takes every counter but that of the unique keys.
abbrev pub TakesNoKeys : List Step → Type 0
TakesNoKeys = All (λ x. x ≢ swap Stat.unique_keys)

taken_keys : (xs : List Step) (s : InternalStats) → TakesNoKeys xs → taken Stat.unique_keys xs s ≡ 0
taken_keys [] s h = refl
taken_keys (inc t ∷ xs) s (_, h) = taken_keys xs (stats_inc t s) h
taken_keys (swap Stat.unique_keys ∷ xs) s (ne, h) = absurd (ne refl)
taken_keys (swap Stat.metrics ∷ xs) s (_, h) =
    omega (arith, taken_keys xs (stats_swap Stat.metrics s) h)
taken_keys (swap Stat.errors ∷ xs) s (_, h) =
    omega (arith, taken_keys xs (stats_swap Stat.errors s) h)
taken_keys (swap Stat.failed ∷ xs) s (_, h) =
    omega (arith, taken_keys xs (stats_swap Stat.failed s) h)
taken_keys (swap Stat.from_future ∷ xs) s (_, h) =
    omega (arith, taken_keys xs (stats_swap Stat.from_future s) h)
taken_keys (swap Stat.delayed ∷ xs) s (_, h) =
    omega (arith, taken_keys xs (stats_swap Stat.delayed s) h)
taken_keys (swap Stat.replayed ∷ xs) s (_, h) =
    omega (arith, taken_keys xs (stats_swap Stat.replayed s) h)
taken_keys (fetch ∷ xs) s (_, h) = taken_keys xs (stats_fetch Stat.unique_keys s) h

-- However increments fall between the steps of the sampler, which never resets the number of the
-- unique keys: for every other counter, what is live and what was taken from it make up what was there
-- and what was counted, modulo 2 ^ 32; the unique keys that are live are alone what was there and what
-- was counted, and a sample of them is that. A pass of the sampler is one such step for each of the
-- seven counters.
pub run-counted :
    (xs : List Step) (s : InternalStats)
    → TakesNoKeys xs
    → ((stat : Stat)
        → stat ≢ Stat.unique_keys
        → (taken stat xs s + get stat (run xs s).live) % 2 ^ 32
          ≡ (get stat s.live + counted stat xs) % 2 ^ 32)
      × ((run xs s).live.unique_keys % 2 ^ 32
          ≡ (s.live.unique_keys + counted Stat.unique_keys xs) % 2 ^ 32)
      × ((run (fetch ∷ []) (run xs s)).sample.unique_keys ≡ (run xs s).live.unique_keys)
      × (run pass (run xs s) ≡ internal__sample (run xs s))
unfolding stats_fetch internal__sample
run-counted xs s h = (
  (λ stat ne. counted_lem stat xs s),
  omega (arith, counted_lem Stat.unique_keys xs s, taken_keys xs s h),
  refl,
  refl,
)

-- One pass of the internal sampler: what is reported is what the live counters were, and they are
-- all reset but `unique_keys`, which counts the keys since the start.
pub internal__sample_lem :
    (s : InternalStats)
    → ((internal__sample s).sample ≡ s.live)
      × ((stat : Stat) → stat ≢ Stat.unique_keys → get stat (internal__sample s).live ≡ 0)
      × (get Stat.unique_keys (internal__sample s).live ≡ get Stat.unique_keys s.live)
      × ((internal__sample s).sample_freq ≡ s.sample_freq)
unfolding internal__sample
internal__sample_lem s = (refl, (λ stat h. reset stat h), refl, refl)
  where
    reset : (stat : Stat) → stat ≢ Stat.unique_keys → get stat (internal__sample s).live ≡ 0
    reset Stat.unique_keys h = absurd (h refl)
    reset _ h = refl
