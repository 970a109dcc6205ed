-- ===== src/Stats.antt =====
-- `struct brubeck_internal_stats` of src/server.h, its counters, and `brubeck_internal__sample` of
-- src/internal_sampler.c. Every access to a live counter is one atomic step.
pub mod Count
mod Tests
use brubeck.Prelude.{ℕ, ◌+◌, List, [], ◌∷◌, ◌++◌, u32, codes}
use brubeck.Value.{Double}

pub record Counters : Type 0 where
  pub metrics : ℕ
  pub errors : ℕ
  pub unique_keys : ℕ
  pub failed : ℕ
  pub from_future : ℕ
  pub delayed : ℕ
  pub replayed : ℕ

pub record InternalStats : Type 0 where
  pub sample_freq : ℕ
  pub live : Counters
  pub sample : Counters

-- The counters by name; the last four are those of `secure`.
pub data Stat : Type 0 where
  metrics errors unique_keys failed from_future delayed replayed : Stat

abbrev pub get : Stat → Counters → ℕ
get Stat.metrics c = c.metrics
get Stat.errors c = c.errors
get Stat.unique_keys c = c.unique_keys
get Stat.failed c = c.failed
get Stat.from_future c = c.from_future
get Stat.delayed c = c.delayed
get Stat.replayed c = c.replayed

abbrev pub put : Stat → ℕ → Counters → Counters
put Stat.metrics n c = record c { metrics = n }
put Stat.errors n c = record c { errors = n }
put Stat.unique_keys n c = record c { unique_keys = n }
put Stat.failed n c = record c { failed = n }
put Stat.from_future n c = record c { from_future = n }
put Stat.delayed n c = record c { delayed = n }
put Stat.replayed n c = record c { replayed = n }

-- `brubeck_stats_inc`, an atomic addition to a `uint32_t`.
unfoldable pub stats_inc : Stat → InternalStats → InternalStats
stats_inc stat s = record s { live = put stat (u32 (get stat s.live + 1)) s.live }

-- `brubeck_atomic_swap` with 0, and what is kept of it in `sample`.
unfoldable pub stats_swap : Stat → InternalStats → InternalStats
stats_swap stat s = record s {
  live = put stat 0 s.live;
  sample = put stat (get stat s.live) s.sample;
}

-- `brubeck_atomic_fetch`, which leaves the live counter.
unfoldable pub stats_fetch : Stat → InternalStats → InternalStats
stats_fetch stat s = record s { sample = put stat (get stat s.live) s.sample }

-- The seven counters in the order in which they are sampled, with the one that is not reset.
unfoldable pub internal__sample : InternalStats → InternalStats
unfolding stats_swap stats_fetch
internal__sample s =
    let s₁ = stats_swap Stat.metrics s in
    let s₂ = stats_swap Stat.errors s₁ in
    let s₃ = stats_fetch Stat.unique_keys s₂ in
    let s₄ = stats_swap Stat.failed s₃ in
    let s₅ = stats_swap Stat.from_future s₄ in
    let s₆ = stats_swap Stat.delayed s₅ in stats_swap Stat.replayed s₆

-- What the callback is given, in order: the key with a suffix, and the value that was sampled.
unfoldable pub internal__report :
    {V : Type 0} ⦃d : Double V⦄ → List ℕ → Counters → List (List ℕ × V)
internal__report ⦃d⦄ key sample =
    (key ++ codes ".metrics", d.of_nat sample.metrics)
    ∷ (key ++ codes ".errors", d.of_nat sample.errors)
    ∷ (key ++ codes ".unique_keys", d.of_nat sample.unique_keys)
    ∷ (key ++ codes ".secure.failed", d.of_nat sample.failed)
    ∷ (key ++ codes ".secure.from_future", d.of_nat sample.from_future)
    ∷ (key ++ codes ".secure.delayed", d.of_nat sample.delayed)
    ∷ (key ++ codes ".secure.replayed", d.of_nat sample.replayed)
    ∷ []
