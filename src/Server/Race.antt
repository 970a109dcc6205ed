-- ===== src/Server/Race.antt =====
-- Two threads of src/metric.c that make a metric of one key: `brubeck_metric_new` of the one that
-- comes second.
use brubeck.Prelude.{
  ℕ, ◌+◌, ◌≤◌, ◌≡◌, refl, ap, ◌∙◌, List, [], ◌∷◌, ◌++◌, Option, none, some, arith, ◌>>=◌, length,
  take_of_le, u16,
}
use brubeck.Value.{Double}
use brubeck.Slab
use brubeck.Slab.{Pointer, slab_alloc}
use brubeck.Slab.Bounds.{Serves, slab_alloc-IsServed}
use brubeck.Metric.{MetricType, Metric, new_metric}
use brubeck.HashTable.{CkHt, IsTable}
use brubeck.Server.{Server, metric_size, inserted, insert_metric, metric_new}
use brubeck.Server.Valid.{IsValid, IsValid-Extends, Extends, append-Extends}
use brubeck.Server.Insert.{max_key}
use brubeck.Server.Find.{take-u16}

module _ {V T : Type 0} ⦃d : Double V⦄ (ck : CkHt T) (name : List ℕ) where
  -- The table and the queues are as they were; the store has all its metrics unchanged, and behind
  -- them the new one.
  pub record Yields (key : List ℕ) (s s' : Server V T) : Type 0 where
    pub valid : IsValid ck name s'
    pub extends : Extends s s'
    pub rest : s' ≡ record s { slab = s'.slab; store = s'.store }
    pub leaked : (m : Metric V) × (m.key ≡ key) × (s'.store ≡ s.store ++ (m ∷ []))

  -- On a valid server, where the table has a metric for the key by now: `brubeck_metric_new` gives that
  -- one, of whatever type it is, and leaves a valid server; the table, the queues and the counters are
  -- unchanged, and so are all metrics of the store: behind them there is one more of that key. For a key
  -- of at most 4031 bytes and a table that keeps what was put in.
  pub metric_new-Yields :
      (s : Server V T) (key : List ℕ) (type : MetricType) (i : ℕ)
      → IsValid ck name s
      → IsTable ck
      → length key ≤ max_key
      → ck.get_spmc s.metrics key ≡ some i
      → (s' : Server V T) × (metric_new ck s key (length key) type ≡ some (some i, s'))
        × Yields key s s'
  unfolding metric_new insert_metric inserted new_metric
  metric_new-Yields s key type i ok laws fits there =
      rw (take_of_le (length key) key (omega arith))
        (go (slab_alloc s.slab need) (slab_alloc-IsServed s.slab need (omega arith) ok.slab))
    where
      need : ℕ
      need = metric_size + length key + 1

      go :
          (r : Option (Pointer × Slab.Slab))
          → Serves s.slab need r
          → (s' : Server V T) × ((r >>= λ (_, slab).
                let m : Metric V = new_metric key type in
                insert_metric ck
                  (record s { slab = slab; store = s.store ++ (m ∷ []) })
                  (length s.store)
                  m)
              ≡ some (some i, s'))
            × Yields key s s'
      go none b = absurd b
      go (some (p, slab)) b =
          let m : Metric V = new_metric key type in
          let s' = record s { slab = slab; store = s.store ++ (m ∷ []) } in
          let x = append-Extends s slab m in
          let took = take-u16 key (u16 (length key)) (omega arith) (omega arith) in
          (
            s',
            ap (inserted ck s' (length s.store) m) (
                  ap (λ k. ck.put_spmc s.metrics k (length s.store)) took
                  ∙ laws.put_present s.metrics key i (length s.store) there)
                ∙ ap (λ k. some (ck.get_spmc s.metrics k, s')) took
                ∙ ap (λ r. some (r, s')) there,
            record {
              valid = IsValid-Extends ck name s s' x b.valid refl ok;
              extends = x;
              rest = refl;
              leaked = (m, refl, refl);
            },
          )
