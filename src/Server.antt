-- ===== src/Server.antt =====
-- The server's metrics: `brubeck_metric_new`, `brubeck_metric_find` and `brubeck_metric_shard` of
-- src/metric.c over the state of src/server.h. A metric is known by its number in `store`; a fault (a
-- null pointer, a failed assertion) is `none`.
pub mod Tests
pub mod Valid
pub mod Insert
pub mod Find
pub mod Race
pub mod Init
use brubeck.Prelude.{
  ℕ, ◌+◌, ◌%◌, List, [], ◌∷◌, ◌++◌, Option, none, some, Bool, true, false, ltb, ◌==◌, if◌then◌else◌,
  ◌>>=◌, length, get_elem?, get_or, set, take, u16,
}
use brubeck.Value.{Double}
use brubeck.Slab.{Slab, slab_alloc}
use brubeck.Stats.{InternalStats, Stat, stats_inc}
use brubeck.Metric.{MetricType, Metric, new_metric, expire_active}
use brubeck.HashTable.{CkHt, hashtable_find, hashtable_insert}
use brubeck.City.{city_hash32}

-- `sizeof(struct brubeck_metric)`, which fills one slab.
abbrev pub metric_size : ℕ
metric_size = 32

-- `backends` has the queue of each active backend, the metric that was registered last in front.
pub record Server (V T : Type 0) : Type 0 where
  pub slab : Slab
  pub metrics : T
  pub store : List (Metric V)
  pub at_capacity : Bool
  pub backends : List (List ℕ)
  pub internal_stats : InternalStats

-- The number of the backend of a key.
unfoldable pub metric_shard : {V T : Type 0} → Server V T → List ℕ → ℕ → Option ℕ
metric_shard s key key_len =
    if ltb 1 (length s.backends)
    then (do h ← city_hash32 (take key_len key); some (h % length s.backends))
    else some 0

module _ {V T : Type 0} ⦃d : Double V⦄ (ck : CkHt T) where
  -- `brubeck_backend_register_metric` at the queue of a shard; there may be none.
  unfoldable pub register : Server V T → ℕ → ℕ → Option (Server V T)
  register s shard id = do
    queue ← get_elem? s.backends shard
    some (record s { backends = set s.backends shard (id ∷ queue) })

  -- What follows the insertion of metric `id`: another thread may have put in the key since.
  unfoldable pub inserted : Server V T → ℕ → Metric V → Option T → Option (Option ℕ × Server V T)
  unfolding metric_shard register
  inserted s id m none = some (hashtable_find ck s.metrics m.key m.key_len, s)
  inserted s id m (some metrics) = do
    shard ← metric_shard s m.key m.key_len
    s' ← register (record s { metrics = metrics }) shard id
    some (some id, record s' { internal_stats = stats_inc Stat.unique_keys s'.internal_stats })

  -- What follows the allocation of metric `id`.
  unfoldable pub insert_metric : Server V T → ℕ → Metric V → Option (Option ℕ × Server V T)
  unfolding inserted
  insert_metric s id m = inserted s id m (hashtable_insert ck s.metrics m.key m.key_len id)

  -- A new metric, or the one that another thread has put in since.
  unfoldable pub metric_new : Server V T → List ℕ → ℕ → MetricType → Option (Option ℕ × Server V T)
  unfolding insert_metric
  metric_new s key key_len type = do
    (_, slab) ← slab_alloc s.slab (metric_size + key_len + 1)
    let m = new_metric (take key_len key) type
    insert_metric (record s { slab = slab; store = s.store ++ (m ∷ []) }) (length s.store) m

  -- The metric is marked as active.
  unfoldable pub touch : Server V T → ℕ → Option (Option ℕ × Server V T)
  touch s id = do
    m ← get_elem? s.store id
    some (some id, record s { store = set s.store id (record m { expire = expire_active }) })

  -- What follows the look-up; the inner `none` is a null pointer.
  unfoldable pub found :
      Server V T → List ℕ → ℕ → MetricType → Option ℕ → Option (Option ℕ × Server V T)
  unfolding metric_new touch
  found s key key_len type none =
      if s.at_capacity then some (none, s) else metric_new s key key_len type
  found s key key_len type (some id) = touch s id

  -- The byte behind the key is asserted to be 0.
  unfoldable pub metric_find : Server V T → List ℕ → ℕ → MetricType → Option (Option ℕ × Server V T)
  unfolding found
  metric_find s key key_len type =
      if get_or key key_len 0 == 0
      then found s key key_len type (hashtable_find ck s.metrics key key_len)
      else none
