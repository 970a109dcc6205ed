-- ===== src/Loop/Expiry.antt =====
-- The expiry of metrics in src/server.c: a pass over the table takes one from every metric in it.
use mathlib.Core.Path.{subst}
use brubeck.Prelude.{
  ℕ, zero, suc, ◌+◌, ◌-◌, ◌≡◌, ◌≢◌, ◌⊎◌, inl, inr, refl, ap, sym, ◌∙◌, List, [], ◌∷◌, some, arith,
  get_elem?, alter, get_elem?-alter_self, get_elem?-alter_other, Nat-cases, Bool-cases, ltb,
}
use brubeck.Value.{Double}
use brubeck.Metric.{Metric}
use brubeck.HashTable.{CkHt, IsTable, Listed, Distinct, values, for_each, hashtable_foreach}
use brubeck.Server.{Server}
use brubeck.Server.Valid.{IsValid, IsValid-Extends, Continues, Continues-refl, Extends}
use brubeck.Loop.{expire_metric, expire_metrics}

Listed-cases : (i : ℕ) (vs : List ℕ) → Listed i vs ⊎ (Listed i vs → ⊥)
Listed-cases i [] = inr (λ l. l)
Listed-cases i (v ∷ vs) = elim (Nat-cases i v) [
  | inl e ↦ inl (inl e)
  | inr ne ↦ elim (Listed-cases i vs) [
    | inl l ↦ inl (inr l)
    | inr absent ↦ inr (λ l. elim l [ inl e ↦ ne e | inr l' ↦ absent l' ])
  ]
]

module _ {T : Type 0} (ck : CkHt T) where
  abbrev Entries : Type 0
  Entries = List (List ℕ × ℕ)

  pub Listed-values :
      (es : Entries) (k : List ℕ) (i : ℕ) → Listed (k, i) es → Listed i (values ck es)
  Listed-values [] k i l = absurd l
  Listed-values ((j, v) ∷ es) k i l = elim l [
    | inl e ↦ inl (ap (λ x. x.1) e)
    | inr l' ↦ inr (Listed-values es k i l')
  ]

  values-Listed : (es : Entries) (i : ℕ) → Listed i (values ck es) → (k : List ℕ) × Listed (k, i) es
  values-Listed [] i l = absurd l
  values-Listed ((j, v) ∷ es) i l = elim l [
    | inl e ↦ (j, inl (ap (λ x. (j, x)) e))
    | inr l' ↦ let (k, h) = values-Listed es i l' in (k, inr h)
  ]

  -- Entries that differ have other values, if a value has only one key.
  Distinct-values :
      (es : Entries)
      → ((k k' : List ℕ) (i : ℕ) → Listed (k, i) es → Listed (k', i) es → k ≡ k')
      → Distinct es
      → Distinct (values ck es)
  Distinct-values [] one h = tt
  Distinct-values ((j, v) ∷ es) one (fresh, h) = (
    λ l.
        let (k, l') = values-Listed es v l in
        let same = one k j v (inr l') (inl refl) in fresh (subst (λ x. Listed (x, v) es) same l'),
    Distinct-values es (λ k k' i a b. one k k' i (inr a) (inr b)) h,
  )

  module _ {A : Type 0} (f : A → A) where
    abbrev pass : List ℕ → List A → List A
    unfolding for_each
    pass vs xs = for_each ck (λ id ys. alter ys id f) vs xs

    pass-absent :
        (vs : List ℕ) (xs : List A) (i : ℕ)
        → (Listed i vs → ⊥)
        → get_elem? (pass vs xs) i ≡ get_elem? xs i
    unfolding for_each
    pass-absent [] xs i absent = refl
    pass-absent (v ∷ vs) xs i absent =
        pass-absent vs (alter xs v f) i (λ l. absent (inr l))
        ∙ get_elem?-alter_other xs v i f (λ e. absent (inl e))

    -- An element that is met once is changed once.
    pass-present :
        (vs : List ℕ) (xs : List A) (i : ℕ) (a : A)
        → Distinct vs
        → Listed i vs
        → get_elem? xs i ≡ some a
        → get_elem? (pass vs xs) i ≡ some (f a)
    unfolding for_each
    pass-present [] xs i a h l at = absurd l
    pass-present (v ∷ vs) xs i a (fresh, h) l at = elim l [
      | inl e ↦
          let here = get_elem?-alter_self xs i a f at in
          pass-absent vs (alter xs v f) i (subst (λ x. Listed x vs → ⊥) (sym e) fresh)
          ∙ subst (λ x. get_elem? (alter xs x f) i ≡ some (f a)) e here
      | inr l' ↦
          let apart : i ≢ v = λ e. fresh (subst (λ x. Listed x vs) e l') in
          pass-present vs (alter xs v f) i a h l' (get_elem?-alter_other xs v i f apart ∙ at)
    ]

expire_metric_lem :
    {V : Type 0} (m : Metric V) → expire_metric m ≡ record m { expire = m.expire - 1 }
unfolding expire_metric
expire_metric_lem m = elim (Bool-cases (ltb 0 m.expire)) [
  | inl e ↦ rw e refl
  | inr e ↦
      let gone : m.expire ≡ m.expire - 1 = ground arith in
      rw e (ap (λ (x : ℕ). record m { expire = x }) gone)
]

expire_metric-Continues : {V : Type 0} (m : Metric V) → Continues m (expire_metric m)
expire_metric-Continues m =
    rw (expire_metric_lem m) (record { key = refl; type = refl; member = λ h. h })

module _ {V T : Type 0} ⦃d : Double V⦄ (ck : CkHt T) (name : List ℕ) where
  -- Every metric of the table is `n` turns nearer to being disabled, and nothing else has changed.
  pub record Ages (n : ℕ) (s s' : Server V T) : Type 0 where
    pub valid : IsValid ck name s'
    pub aged :
        (k : List ℕ) (i : ℕ) (m : Metric V)
        → ck.get_spmc s.metrics k ≡ some i
        → get_elem? s.store i ≡ some m
        → get_elem? s'.store i ≡ some (record m { expire = m.expire - n })
    pub others :
        (i : ℕ)
        → ((k : List ℕ) → ck.get_spmc s.metrics k ≢ some i)
        → get_elem? s'.store i ≡ get_elem? s.store i
    pub rest : s' ≡ record s { store = s'.store }

  one_key :
      (s : Server V T) (k k' : List ℕ) (i : ℕ)
      → IsValid ck name s
      → ck.get_spmc s.metrics k ≡ some i
      → ck.get_spmc s.metrics k' ≡ some i
      → k ≡ k'
  one_key s k k' i ok e e' =
      let n = ok.known k i e in
      let n' = ok.known k' i e' in
      let same : n.metric ≡ n'.metric = cc (n.there, n'.there) in
      sym n.key ∙ ap (λ m. m.key) same ∙ n'.key

  entries-Distinct :
      (s : Server V T)
      → IsValid ck name s
      → IsTable ck
      → Distinct (values ck (ck.entries s.metrics))
  entries-Distinct s ok laws =
      let listed = laws.listed s.metrics in
      Distinct-values ck (ck.entries s.metrics)
        (λ k k' i a b. one_key s k k' i ok ((listed k i).1 a) ((listed k' i).1 b))
        (laws.once s.metrics)

  pub expire_metrics-Extends :
      (s : Server V T) → IsValid ck name s → IsTable ck → Extends s (expire_metrics ck s)
  unfolding expire_metrics hashtable_foreach for_each
  expire_metrics-Extends s ok laws =
      let vs = values ck (ck.entries s.metrics) in
      record {
        kept = λ i m e. elim (Listed-cases i vs) [
          | inl l ↦ (
            expire_metric m,
            pass-present ck expire_metric vs s.store i m (entries-Distinct s ok laws) l e,
            expire_metric-Continues m,
          )
          | inr absent ↦ (m, pass-absent ck expire_metric vs s.store i absent ∙ e, Continues-refl m)
        ];
        width = refl;
        queues = λ g i l. l;
      }

  expire_metrics-Ages :
      (s : Server V T) → IsValid ck name s → IsTable ck → Ages 1 s (expire_metrics ck s)
  unfolding expire_metrics hashtable_foreach for_each
  expire_metrics-Ages s ok laws =
      let es = ck.entries s.metrics in
      let listed = laws.listed s.metrics in
      let distinct = entries-Distinct s ok laws in
      let s' = expire_metrics ck s in
      record {
        valid = IsValid-Extends ck name s s' (expire_metrics-Extends s ok laws) ok.slab refl ok;
        aged = λ k i m e at.
            pass-present ck expire_metric (values ck es) s.store i m distinct
              (Listed-values ck es k i ((listed k i).0 e)) at
            ∙ ap some (expire_metric_lem m);
        others = λ i absent.
            pass-absent ck expire_metric (values ck es) s.store i
              (λ l. let (k, h) = values-Listed ck es i l in absent k ((listed k i).1 h));
        rest = refl;
      }

  -- The timer elapses so many times.
  unfoldable pub passes : ℕ → Server V T → Server V T
  passes zero s = s
  passes (suc n) s = passes n (expire_metrics ck s)

  Ages-refl : (s : Server V T) → IsValid ck name s → Ages 0 s s
  Ages-refl s ok = record {
    valid = ok;
    aged = λ k i m e at. at ∙ ap (λ (x : ℕ). some (record m { expire = x })) (omega arith);
    others = λ i absent. refl;
    rest = refl;
  }

  Ages-trans : (s s' s'' : Server V T) (a b : ℕ) → Ages a s s' → Ages b s' s'' → Ages (a + b) s s''
  Ages-trans s s' s'' a b x y =
      let same : s'.metrics ≡ s.metrics = ap (λ t. t.metrics) x.rest in
      record {
        valid = y.valid;
        aged = λ k i m e at.
            let e' = subst (λ t. ck.get_spmc t k ≡ some i) (sym same) e in
            y.aged k i (record m { expire = m.expire - a }) e' (x.aged k i m e at)
            ∙ ap (λ (n : ℕ). some (record m { expire = n })) (omega arith);
        others = λ i absent.
            y.others i (λ k e. absent k (subst (λ t. ck.get_spmc t k ≡ some i) same e))
            ∙ x.others i absent;
        rest = y.rest ∙ ap (λ (t : Server V T). record t { store = s''.store }) x.rest;
      }

  -- The timer elapses `n` times while no metric is found: the server is valid, each metric of its
  -- table is `n` nearer to being disabled, at 0 it stays, and nothing else has changed. For a table
  -- whose iteration meets each entry once.
  pub passes-Ages :
      (n : ℕ) (s : Server V T) → IsValid ck name s → IsTable ck → Ages n s (passes n s)
  unfolding passes
  passes-Ages zero s ok laws = Ages-refl s ok
  passes-Ages (suc n) s ok laws =
      let first = expire_metrics-Ages s ok laws in
      let next = passes-Ages n (expire_metrics ck s) first.valid laws in
      subst (λ x. Ages x s (passes n (expire_metrics ck s))) (omega arith)
        (Ages-trans s (expire_metrics ck s) (passes n (expire_metrics ck s)) 1 n first next)
