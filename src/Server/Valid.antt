-- ===== src/Server/Valid.antt =====
-- What a valid server is: src/server.h with the table of src/ht.c, the metrics and the queues in step.
use mathlib.Core.Path.{subst}
use brubeck.Prelude.{
  ℕ, Nat-cases, get_elem?-append_some, get_elem?-set_self, get_elem?-set_other, get_or-set,
  length-set, true, false, ◌++◌, set, arith, ◌==◌, if◌then◌else◌, ◌<◌, ◌≡◌, inl, inr, refl, sym,
  ◌∙◌, List, [], ◌∷◌, some, length, get_elem?, get_or,
}
use brubeck.Slab
use brubeck.Slab.Bounds
use brubeck.Metric.{Metric, internal_stats}
use brubeck.Metric.Record.{HasMember}
use brubeck.HashTable.{CkHt, Listed}
use brubeck.Server.{Server, metric_shard}

-- Metric `i` in the store, under its key, with the member of the union that its type has; only the
-- server's own name may have the type of the internal statistics; and the metric is in the queue
-- of the backend of its key.
pub record Known {V T : Type 0} (name : List ℕ) (s : Server V T) (k : List ℕ) (i : ℕ) : Type 0 where
  pub metric : Metric V
  pub there : get_elem? s.store i ≡ some metric
  pub key : metric.key ≡ k
  pub member : HasMember metric.type metric.as_
  pub named : metric.type ≡ internal_stats → k ≡ name
  pub shard : ℕ
  pub sharded : metric_shard s k (length k) ≡ some shard
  pub queued : Listed i (get_or s.backends shard [])

pub record IsValid {V T : Type 0} (ck : CkHt T) (name : List ℕ) (s : Server V T) : Type 0 where
  pub slab : Bounds.IsValid s.slab
  pub backend : 0 < length s.backends
  pub known : (k : List ℕ) (i : ℕ) → ck.get_spmc s.metrics k ≡ some i → Known name s k i

-- The same metric, but for what was recorded and whether it is active.
pub record Continues {V : Type 0} (m m' : Metric V) : Type 0 where
  pub key : m'.key ≡ m.key
  pub type : m'.type ≡ m.type
  pub member : HasMember m.type m.as_ → HasMember m'.type m'.as_

-- No metric and no entry of a queue is lost.
pub record Extends {V T : Type 0} (s s' : Server V T) : Type 0 where
  pub kept :
      (i : ℕ) (m : Metric V)
      → get_elem? s.store i ≡ some m
      → (m' : Metric V) × (get_elem? s'.store i ≡ some m') × Continues m m'
  pub width : length s'.backends ≡ length s.backends
  pub queues : (g i : ℕ) → Listed i (get_or s.backends g []) → Listed i (get_or s'.backends g [])

pub Continues-refl : {V : Type 0} (m : Metric V) → Continues m m
Continues-refl m = record { key = refl; type = refl; member = λ h. h }

module _ {V T : Type 0} where
  pub Extends-refl : (s : Server V T) → Extends s s
  Extends-refl s = record {
    kept = λ i m e. (m, e, Continues-refl m);
    width = refl;
    queues = λ g i l. l;
  }

  pub Extends-trans : (s s' s'' : Server V T) → Extends s s' → Extends s' s'' → Extends s s''
  Extends-trans s s' s'' a b = record {
    kept = λ i m e.
        let (m', e', c) = a.kept i m e in
        let (m'', e'', c') = b.kept i m' e' in
        (
          m'',
          e'',
          record {
            key = c'.key ∙ c.key;
            type = c'.type ∙ c.type;
            member = λ h. c'.member (c.member h);
          },
        );
    width = b.width ∙ a.width;
    queues = λ g i l. b.queues g i (a.queues g i l);
  }

  pub shard_of_width :
      (s s' : Server V T) (k : List ℕ) (n : ℕ)
      → length s'.backends ≡ length s.backends
      → metric_shard s' k n ≡ metric_shard s k n
  unfolding metric_shard
  shard_of_width s s' k n e = rw e refl

  pub Known-Extends :
      (name k : List ℕ) (i : ℕ) (s s' : Server V T)
      → Extends s s'
      → Known name s k i
      → Known name s' k i
  Known-Extends name k i s s' x n =
      let (m', e', c) = x.kept i n.metric n.there in
      record {
        metric = m';
        there = e';
        key = c.key ∙ n.key;
        member = c.member n.member;
        named = λ t. n.named (sym c.type ∙ t);
        shard = n.shard;
        sharded = shard_of_width s s' k (length k) x.width ∙ n.sharded;
        queued = x.queues n.shard i n.queued;
      }

  -- A server with the same table is as valid, if its slab is valid and nothing is lost.
  pub IsValid-Extends :
      (ck : CkHt T) (name : List ℕ) (s s' : Server V T)
      → Extends s s'
      → Bounds.IsValid s'.slab
      → s'.metrics ≡ s.metrics
      → IsValid ck name s
      → IsValid ck name s'
  IsValid-Extends ck name s s' x slab metrics ok = record {
    slab = slab;
    backend = omega (arith, x.width, ok.backend);
    known = λ k i e.
        Known-Extends name k i s s' x
          (ok.known k i (subst (λ t. ck.get_spmc t k ≡ some i) metrics e));
  }

  -- The metric with that number is written.
  pub write-Extends :
      (s : Server V T) (i : ℕ) (m m' : Metric V)
      → get_elem? s.store i ≡ some m
      → Continues m m'
      → Extends s (record s { store = set s.store i m' })
  write-Extends s i m m' e c = record {
    kept = λ j n f. elim (Nat-cases j i) [
      | inl same ↦
          let old : m ≡ n = cc in
          (m', rw same (get_elem?-set_self s.store i m m' e), subst (λ x. Continues x m') old c)
      | inr other ↦ (n, get_elem?-set_other s.store i j m' other ∙ f, Continues-refl n)
    ];
    width = refl;
    queues = λ g j l. l;
  }

  -- A metric is put behind the others.
  pub append-Extends :
      (s : Server V T) (slab : Slab.Slab) (m : Metric V)
      → Extends s (record s { slab = slab; store = s.store ++ (m ∷ []) })
  append-Extends s slab m = record {
    kept = λ j n f. (n, get_elem?-append_some s.store (m ∷ []) j n f, Continues-refl n);
    width = refl;
    queues = λ g j l. l;
  }

  -- A metric is put in front of the queue of a backend.
  pub queue-Extends :
      (s : Server V T) (shard id : ℕ)
      → shard < length s.backends
      → let queue = get_or s.backends shard [] in
        let s' = record s { backends = set s.backends shard (id ∷ queue) } in
        Extends s s' × Listed id (get_or s'.backends shard [])
  queue-Extends s shard id h =
      let queue = get_or s.backends shard [] in
      let at = λ (g : ℕ). get_or-set s.backends shard g (id ∷ queue) [] h in
      let self : (shard == shard) ≡ true = ground arith in
      (
        record {
          kept = λ j n f. (n, f, Continues-refl n);
          width = length-set s.backends shard (id ∷ queue);
          queues = λ g j l. subst (Listed j) (sym (at g)) (in_front g j l);
        },
        subst (Listed id) (sym (at shard)) (rw self (inl refl)),
      )
    where
      in_front :
          (g j : ℕ)
          → Listed j (get_or s.backends g [])
          → Listed j
              (if shard == g then id ∷ get_or s.backends shard [] else get_or s.backends g [])
      in_front g j l = elim (Nat-cases shard g) [
        | inl e ↦
            let t : (shard == g) ≡ true = ground arith in
            rw t (inr (subst (λ x. Listed j (get_or s.backends x [])) (sym e) l))
        | inr e ↦ let t : (shard == g) ≡ false = ground arith in rw t l
      ]
