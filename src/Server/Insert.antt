-- ===== src/Server/Insert.antt =====
-- A metric that is found, and one that is put in, by the functions of src/metric.c.
use mathlib.Core.Path.{subst}
use brubeck.Prelude.{
  ℕ, ◌%◌, ◌<◌, ◌≡◌, ◌≢◌, ◌⊎◌, inl, inr, refl, sym, ◌∙◌, List, [], ◌∷◌, ◌++◌, Option, none, some,
  true, arith, length, get_elem?, get_or, set, take, ltb, get_elem?-get_or, get_elem?-append_length,
  get_elem?-set_self, length-set, Bool-cases, text_cases,
}
use native.Mathlib.Nat.{mod-lt}
use brubeck.Value.{Double}
use brubeck.Slab
use brubeck.Slab.{Pointer, slab_alloc, node_size}
use brubeck.Slab.Bounds
use brubeck.Slab.Bounds.{Serves, slab_alloc-IsServed}
use brubeck.Stats
use brubeck.Stats.{Stat, get, stats_inc}
use brubeck.Metric.{MetricType, Metric, new_metric, expire_active, internal_stats, zeroed}
use brubeck.Metric.Record.{HasMember}
use brubeck.HashTable.{CkHt, IsTable}
use brubeck.City.Reads.{city_hash32-Succeeds}
use brubeck.Server.{Server, metric_shard, register, inserted, touch}
use brubeck.Server.Valid.{
  Known, IsValid, IsValid-Extends, shard_of_width, Continues, Extends, Extends-trans, Known-Extends,
  write-Extends, append-Extends, queue-Extends,
}

-- A key that a node of the slab can hold with its metric.
abbrev pub max_key : ℕ
max_key = 4031

inc_other :
    (t : Stat) (x : Stats.InternalStats)
    → t ≢ Stat.unique_keys
    → get t (stats_inc Stat.unique_keys x).live ≡ get t x.live
unfolding stats_inc
inc_other Stat.metrics x ne = refl
inc_other Stat.errors x ne = refl
inc_other Stat.unique_keys x ne = absurd (ne refl)
inc_other Stat.failed x ne = refl
inc_other Stat.from_future x ne = refl
inc_other Stat.delayed x ne = refl
inc_other Stat.replayed x ne = refl

zeroed-HasMember :
    (V : Type 0) ⦃d : Double V⦄ (type : MetricType) → HasMember {V = V} type (zeroed {V = V} type)
zeroed-HasMember V MetricType.gauge = tt
zeroed-HasMember V MetricType.meter = tt
zeroed-HasMember V MetricType.counter = tt
zeroed-HasMember V MetricType.histo = tt
zeroed-HasMember V MetricType.timer = tt
zeroed-HasMember V MetricType.internal_stats = tt

module _ {V T : Type 0} where
  pub shard-Succeeds :
      (s : Server V T) (key : List ℕ) (n : ℕ)
      → 0 < length s.backends
      → (shard : ℕ) × (metric_shard s key n ≡ some shard) × (shard < length s.backends)
  unfolding metric_shard
  shard-Succeeds s key n h =
      let (hash, e) = city_hash32-Succeeds (take n key) in
      elim (Bool-cases (ltb 1 (length s.backends))) [
        | inl many ↦ (hash % length s.backends, rw (many, e) refl, mod-lt hash h)
        | inr one ↦ (0, rw one refl, h)
      ]

module _ {V T : Type 0} ⦃d : Double V⦄ (ck : CkHt T) (name : List ℕ) where
  -- Metric `i` was found for the key: the server is valid, nothing is lost, and the metric is active;
  -- it was there before, or it is new, and it counts then.
  pub record Located (s s' : Server V T) (key : List ℕ) (type : MetricType) (i : ℕ) : Type 0 where
    pub valid : IsValid ck name s'
    pub extends : Extends s s'
    pub entry : ck.get_spmc s'.metrics key ≡ some i
    pub entries :
        (k : List ℕ) (j : ℕ) → ck.get_spmc s.metrics k ≡ some j → ck.get_spmc s'.metrics k ≡ some j
    pub metric : Metric V
    pub there : get_elem? s'.store i ≡ some metric
    pub active : metric.expire ≡ expire_active
    pub origin :
        ((ck.get_spmc s.metrics key ≡ some i) × (length s'.store ≡ length s.store))
        ⊎ ((ck.get_spmc s.metrics key ≡ none) × (metric ≡ new_metric key type))
    pub counted :
        (t : Stat)
        → t ≢ Stat.unique_keys
        → get t s'.internal_stats.live ≡ get t s.internal_stats.live

  -- A null pointer only for a new key at capacity; a fault never.
  abbrev pub Finds : Server V T → List ℕ → MetricType → Option (Option ℕ × Server V T) → Type 0
  Finds s key type none = ⊥
  Finds s key type (some (none, s')) =
      (s.at_capacity ≡ true) × (ck.get_spmc s.metrics key ≡ none) × (s' ≡ s)
  Finds s key type (some (some i, s')) = Located s s' key type i

  pub touch-Finds :
      (s : Server V T) (key : List ℕ) (type : MetricType) (i : ℕ)
      → IsValid ck name s
      → ck.get_spmc s.metrics key ≡ some i
      → Finds s key type (touch ck s i)
  unfolding touch
  touch-Finds s key type i ok e =
      let n = ok.known key i e in
      let m = record n.metric { expire = expire_active } in
      let c : Continues n.metric m = record { key = refl; type = refl; member = λ h. h } in
      let x = write-Extends s i n.metric m n.there c in
      rw (n.there) (record {
        valid = IsValid-Extends ck name s _ x ok.slab refl ok;
        extends = x;
        entry = e;
        entries = λ k j f. f;
        metric = m;
        there = get_elem?-set_self s.store i n.metric m n.there;
        active = refl;
        origin = inl (e, length-set s.store i m);
        counted = λ t ne. refl;
      })

  abbrev pub after_insert : Server V T → ℕ → T → ℕ → Server V T
  after_insert s id metrics shard = record s {
    metrics = metrics;
    backends = set s.backends shard (id ∷ get_or s.backends shard []);
    internal_stats = stats_inc Stat.unique_keys s.internal_stats;
  }

  pub inserted_lem :
      (s : Server V T) (id : ℕ) (m : Metric V) (metrics : T) (shard : ℕ)
      → metric_shard (record s { metrics = metrics }) m.key m.key_len ≡ some shard
      → shard < length s.backends
      → inserted ck s id m (some metrics) ≡ some (some id, after_insert s id metrics shard)
  unfolding inserted register
  inserted_lem s id m metrics shard e h = rw (e, get_elem?-get_or s.backends shard [] h) refl

  -- The new metric is in the table and in the queue of its backend.
  module _ (s : Server V T) (slab : Slab.Slab) (key : List ℕ) (type : MetricType) (metrics : T)
      (shard : ℕ) (ok : IsValid ck name s) (laws : IsTable ck) (slab_ok : Bounds.IsValid slab)
      (name_ok : type ≡ internal_stats → key ≡ name) (absent : ck.get_spmc s.metrics key ≡ none)
      (put : ck.put_spmc s.metrics key (length s.store) ≡ some metrics)
      (inside : shard < length s.backends)
      (sharded : metric_shard s key (length key) ≡ some shard) where
    abbrev pub new : Metric V
    new = new_metric key type

    abbrev pub appended : Server V T
    appended = record s { slab = slab; store = s.store ++ (new ∷ []) }

    abbrev pub after : Server V T
    after = after_insert appended (length s.store) metrics shard

    after-Extends : Extends s after
    after-Extends =
        let (x, _) = queue-Extends appended shard (length s.store) inside in
        let x' : Extends appended after = record {
          kept = x.kept;
          width = x.width;
          queues = x.queues;
        } in
        Extends-trans s appended after (append-Extends s slab new) x'

    new-Known : Known name after key (length s.store)
    unfolding new_metric
    new-Known = record {
      metric = new;
      there = get_elem?-append_length s.store new [];
      key = refl;
      member = zeroed-HasMember V type;
      named = name_ok;
      shard = shard;
      sharded = shard_of_width s after key (length key) after-Extends.width ∙ sharded;
      queued = (queue-Extends appended shard (length s.store) inside).1;
    }

    after-Known : (k : List ℕ) (j : ℕ) → ck.get_spmc metrics k ≡ some j → Known name after k j
    after-Known k j f = elim (text_cases k key) [
      | inl same ↦
          let at : ck.get_spmc metrics k ≡ some (length s.store) =
            subst (λ x. ck.get_spmc metrics x ≡ some (length s.store)) (sym same)
              (laws.get-put s.metrics metrics key (length s.store) put) in
          let number : length s.store ≡ j = cc in
          subst (λ x. Known name after x j) (sym same)
            (subst (Known name after key) number new-Known)
      | inr other ↦
          let before =
            sym (laws.get-put_other s.metrics metrics key k (length s.store) put other) ∙ f in
          Known-Extends name k j s after after-Extends (ok.known k j before)
    ]

    after-entries :
        (k : List ℕ) (j : ℕ) → ck.get_spmc s.metrics k ≡ some j → ck.get_spmc metrics k ≡ some j
    after-entries k j f = elim (text_cases k key) [
      | inl same ↦ absurd (cc (subst (λ x. ck.get_spmc s.metrics x ≡ some j) same f, absent))
      | inr other ↦ laws.get-put_other s.metrics metrics key k (length s.store) put other ∙ f
    ]

    pub after-Located : Located s after key type (length s.store)
    unfolding new_metric
    after-Located = record {
      valid = record {
        slab = slab_ok;
        backend = omega (arith, after-Extends.width, ok.backend);
        known = after-Known;
      };
      extends = after-Extends;
      entry = laws.get-put s.metrics metrics key (length s.store) put;
      entries = after-entries;
      metric = new;
      there = get_elem?-append_length s.store new [];
      active = refl;
      origin = inr (absent, refl);
      counted = λ t ne. inc_other t s.internal_stats ne;
    }
