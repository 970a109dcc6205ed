-- ===== src/Server/Find.antt =====
-- `brubeck_metric_find` of src/metric.c finds the metric of a key or makes it, and gives it to one
-- backend.
use mathlib.Core.Path.{subst}
use brubeck.Prelude.{
  ℕ, ◌+◌, ◌^◌, ◌≤◌, ◌<◌, ◌≡◌, refl, ap, sym, ◌∙◌, List, [], ◌∷◌, ◌++◌, Option, none, some, Bool,
  arith, length, get_or, take, u16, if◌then◌else◌, ◌>>=◌, take_of_le, inl, inr, Bool-cases,
}
use brubeck.Value.{Double}
use brubeck.Slab
use brubeck.Slab.{Pointer, slab_alloc}
use brubeck.Slab.Bounds.{Serves, slab_alloc-IsServed}
use brubeck.Metric.{MetricType, Metric, new_metric, internal_stats}
use brubeck.HashTable.{CkHt, IsTable}
use brubeck.Server.{
  Server, metric_size, metric_shard, inserted, insert_metric, metric_new, found, metric_find,
}
use brubeck.Server.Valid.{IsValid, shard_of_width}
use brubeck.Server.Insert.{
  max_key, shard-Succeeds, Finds, Located, touch-Finds, after_insert, inserted_lem, after-Located,
}

pub get_or-length : (xs : List ℕ) → get_or xs (length xs) 0 ≡ 0
get_or-length [] = refl
get_or-length (x ∷ xs) = get_or-length xs

-- A key of less than 2 ^ 16 bytes is passed on whole.
pub take-u16 :
    (key : List ℕ) (n : ℕ) → length key < 2 ^ 16 → n ≡ length key → take (u16 n) key ≡ key
take-u16 key n h e = take_of_le (u16 n) key (omega arith)

module _ {V T : Type 0} ⦃d : Double V⦄ (ck : CkHt T) (name : List ℕ) where
  -- A new metric is made and found.
  abbrev pub Makes : Server V T → List ℕ → MetricType → Option (Option ℕ × Server V T) → Type 0
  Makes s key type r =
      (i : ℕ) × ((s' : Server V T) × (r ≡ some (some i, s')) × Located ck name s s' key type i)

  put-Makes :
      (s : Server V T) (slab : Slab.Slab) (key : List ℕ) (type : MetricType)
      → IsValid ck name s
      → IsTable ck
      → Slab.Bounds.IsValid slab
      → (type ≡ internal_stats → key ≡ name)
      → length key ≤ max_key
      → ck.get_spmc s.metrics key ≡ none
      → let m : Metric V = new_metric key type in
        Makes s key type (
          insert_metric ck
            (record s { slab = slab; store = s.store ++ (m ∷ []) })
            (length s.store)
            m)
  unfolding insert_metric new_metric
  put-Makes s slab key type ok laws slab_ok name_ok fits absent =
      let (metrics, put) = laws.put_absent s.metrics key (length s.store) absent in
      let (shard, sharded, inside) = shard-Succeeds s key (length key) ok.backend in
      let m : Metric V = new_metric key type in
      let id = length s.store in
      let s₁ = record s { slab = slab; store = s.store ++ (m ∷ []) } in
      let whole : u16 (length key) ≡ length key = omega arith in
      let took = take-u16 key (u16 (length key)) (omega arith) (omega arith) in
      let stored : insert_metric ck s₁ id m ≡ inserted ck s₁ id m (some metrics) =
        ap (inserted ck s₁ id m) (ap (λ k. ck.put_spmc s.metrics k id) took ∙ put) in
      let by_shard : metric_shard (record s₁ { metrics = metrics }) key (u16 (length key))
          ≡ some shard =
        subst (λ n. metric_shard (record s₁ { metrics = metrics }) key n ≡ some shard) (sym whole)
          (shard_of_width s (record s₁ { metrics = metrics }) key (length key) refl ∙ sharded) in
      (
        id,
        (
          after_insert ck name s₁ id metrics shard,
          stored ∙ inserted_lem ck name s₁ id m metrics shard by_shard inside,
          after-Located ck name s slab key type metrics shard ok laws slab_ok name_ok absent put
              inside sharded,
        ),
      )

  pub metric_new-Makes :
      (s : Server V T) (key : List ℕ) (type : MetricType)
      → IsValid ck name s
      → IsTable ck
      → (type ≡ internal_stats → key ≡ name)
      → length key ≤ max_key
      → ck.get_spmc s.metrics key ≡ none
      → Makes s key type (metric_new ck s key (length key) type)
  unfolding metric_new
  metric_new-Makes s key type ok laws name_ok fits absent =
      rw (take_of_le (length key) key (omega arith))
        (go (slab_alloc s.slab need) (slab_alloc-IsServed s.slab need (omega arith) ok.slab))
    where
      need : ℕ
      need = metric_size + length key + 1

      go :
          (r : Option (Pointer × Slab.Slab))
          → Serves s.slab need r
          → Makes s key type (
              r >>= λ (_, slab).
              let m : Metric V = new_metric key type in
              insert_metric ck
                (record s { slab = slab; store = s.store ++ (m ∷ []) })
                (length s.store)
                m)
      go none b = absurd b
      go (some (p, slab)) b = put-Makes s slab key type ok laws b.valid name_ok fits absent

  found-Finds :
      (s : Server V T) (key : List ℕ) (type : MetricType) (r : Option ℕ)
      → IsValid ck name s
      → IsTable ck
      → (type ≡ internal_stats → key ≡ name)
      → length key ≤ max_key
      → ck.get_spmc s.metrics key ≡ r
      → Finds ck name s key type (found ck s key (length key) type r)
  unfolding found
  found-Finds s key type (some id) ok laws name_ok fits e = touch-Finds ck name s key type id ok e
  found-Finds s key type none ok laws name_ok fits e =
      let at = λ (b : Bool).
        Finds ck name s key type
          (if b then some (none, s) else metric_new ck s key (length key) type) in
      elim (Bool-cases s.at_capacity) [
        | inl full ↦ subst at (sym full) (full, e, refl)
        | inr room ↦
            let (i, (s', made, located)) = metric_new-Makes s key type ok laws name_ok fits e in
            subst at (sym room) (subst (Finds ck name s key type) (sym made) located)
      ]

  -- On a valid server a key of at most 4031 bytes is found, or it is new and there is no room for it,
  -- and then nothing changes. The metric that is found is in the store under its key and active; it is
  -- the one that the key had before, or a zeroed one of the type that was asked for; it stands in the
  -- queue of the backend that the hash of its key gives; no metric, no entry of the table and no entry of a
  -- queue is lost; no counter changes but the one of the unique keys; and the server is valid. For a
  -- table that keeps what was put in.
  pub metric_find-Finds :
      (s : Server V T) (key : List ℕ) (type : MetricType)
      → IsValid ck name s
      → IsTable ck
      → (type ≡ internal_stats → key ≡ name)
      → length key ≤ max_key
      → Finds ck name s key type (metric_find ck s key (length key) type)
  unfolding metric_find
  metric_find-Finds s key type ok laws name_ok fits =
      let whole = ap (ck.get_spmc s.metrics) (take-u16 key (length key) (omega arith) refl) in
      rw (get_or-length key) (
        subst (λ r. Finds ck name s key type (found ck s key (length key) type r)) (sym whole)
          (found-Finds s key type (ck.get_spmc s.metrics key) ok laws name_ok fits refl))
