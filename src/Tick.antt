-- ===== src/Tick.antt =====
-- One turn of `backend__thread` of src/backend.c, between two sleeps. What the backend itself keeps
-- is of any type `K`; the metrics are numbers in the store, and the queue is the list that is found
-- from its head when the turn begins.
pub mod Reports
pub mod Silence
mod Tests
use brubeck.Prelude.{
  ℕ, List, [], ◌∷◌, Option, none, some, Bool, if◌then◌else◌, ◌>>=◌, ltb, get_elem?, set,
}
use brubeck.Value.{Double}
use brubeck.Stats.{InternalStats}
use brubeck.Histogram.Sorted.{Compare}
use brubeck.Metric.{Metric, expire_disabled}
use brubeck.Metric.Sampling.{Report, metric_sample}

-- The functions of `struct brubeck_backend`. `connect` gives true where the code gives 0, and a fault
-- is `none`.
pub record Operations (K V : Type 0) : Type 0 where
  pub connect : K → Bool × K
  pub at_time : ℕ → K → K
  pub sample : List ℕ → V → K → Option K
  pub flush : Option (K → Option K)

-- What a turn changes.
pub record Turn (K V : Type 0) : Type 0 where
  pub self : K
  pub store : List (Metric V)
  pub stats : InternalStats

module _ {K V : Type 0} (ops : Operations K V) where
  -- The calls of the callback by one sample function.
  unfoldable pub deliver : Report V → K → Option K
  deliver [] self = some self
  deliver ((key, value) ∷ report) self = ops.sample key value self >>= deliver report

  unfoldable pub flush_if : Option (K → Option K) → K → Option K
  flush_if none self = some self
  flush_if (some flush) self = flush self

module _ {K V : Type 0} ⦃d : Double V⦄ (qsort : Compare V → List V → List V) (freq : ℕ)
    (ops : Operations K V) where
  -- The body of the inner loop.
  unfoldable pub sample_one : ℕ → Turn K V → Option (Turn K V)
  unfolding deliver
  sample_one id t = do
    m ← get_elem? t.store id
    (if ltb expire_disabled m.expire
        then (do
          (report, m', stats) ← metric_sample qsort m freq t.stats
          self ← deliver ops report t.self
          some (record { self = self; store = set t.store id m'; stats = stats }))
        else some t)

  unfoldable pub sample_queue : List ℕ → Turn K V → Option (Turn K V)
  unfolding sample_one
  sample_queue [] t = some t
  sample_queue (id ∷ queue) t = sample_one id t >>= sample_queue queue

  -- At time `now`, if the backend is connected or connects.
  unfoldable pub backend_turn : ℕ → List ℕ → Turn K V → Option (Turn K V)
  unfolding sample_queue flush_if
  backend_turn now queue t =
      let (up, self) = ops.connect t.self in
      if up
      then (do
        t' ← sample_queue queue (record t { self = ops.at_time now self })
        self' ← flush_if ops ops.flush t'.self
        some (record t' { self = self' }))
      else some (record t { self = self })
