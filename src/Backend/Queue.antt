-- ===== src/Backend/Queue.antt =====
-- The queue of src/backend.c under every interleaving of the threads that register metrics.
use mathlib.Core.Path.{subst}
use mathlib.Core.List.{append_assoc}
use brubeck.Prelude.{
  ℕ, ◌≡◌, ◌≢◌, ◌⊎◌, inl, inr, refl, ap, sym, ◌∙◌, List, [], ◌∷◌, ◌++◌, Option, none, some, true,
  false, ◌==◌, arith, All, Bool-cases, Nat-cases,
}
use brubeck.Backend.{
  Pc, idle, registered, loaded, linked, Backend, same_pointer, store, step_from, register_step, run,
}

-- The metrics that are found from a pointer on, following `next`.
abbrev pub Chain : (ℕ → Option ℕ) → Option ℕ → List ℕ → Type 0
Chain next p [] = p ≡ none
Chain next p (x ∷ xs) = (p ≡ some x) × Chain next (next x) xs

abbrev pub Member : ℕ → List ℕ → Type 0
Member m [] = ⊥
Member m (x ∷ xs) = (m ≡ x) ⊎ Member m xs

abbrev pub Distinct : List ℕ → Type 0
Distinct [] = Unit
Distinct (x ∷ xs) = All (λ y. y ≢ x) xs × Distinct xs

-- The queue holds the registered metrics and no other, each once, and a metric that is about to be
-- put in has what its thread read as its `next`.
pub record Holds (b : Backend) (xs : List ℕ) : Type 0 where
  pub chain : Chain b.next b.queue xs
  pub inside : All (λ x. b.pc x ≡ registered) xs
  pub every : (m : ℕ) → b.pc m ≡ registered → Member m xs
  pub distinct : Distinct xs
  pub ready : (m : ℕ) (n : Option ℕ) → b.pc m ≡ linked n → b.next m ≡ n

same_pointer-eq : (p q : Option ℕ) → same_pointer p q ≡ true → p ≡ q
same_pointer-eq none none h = refl
same_pointer-eq none (some b) h = cc
same_pointer-eq (some a) none h = cc
same_pointer-eq (some a) (some b) h = let e : a ≡ b = ground arith in ap some e

module _ {ℓ} {A : Type ℓ} where
  store_same : (f : ℕ → A) (m : ℕ) (v : A) → store f m v m ≡ v
  store_same f m v = let t : (m == m) ≡ true = ground arith in rw t refl

  store_other : (f : ℕ → A) (m x : ℕ) (v : A) → x ≢ m → store f m v x ≡ f x
  store_other f m x v ne = let t : (x == m) ≡ false = ground arith in rw t refl

-- A metric that is not in the queue may change its `next`.
Chain-store :
    (b : Backend) (m : ℕ) (n p : Option ℕ) (xs : List ℕ)
    → All (λ x. x ≢ m) xs
    → Chain b.next p xs
    → Chain (store b.next m n) p xs
Chain-store b m n p [] out c = c
Chain-store b m n p (x ∷ xs) (ne, out) (e, c) = (
  e,
  subst (λ q. Chain (store b.next m n) q xs) (sym (store_other b.next m x n ne))
      (Chain-store b m n (b.next x) xs out c),
)

All-out :
    (b : Backend) (m : ℕ) (xs : List ℕ)
    → b.pc m ≢ registered
    → All (λ x. b.pc x ≡ registered) xs
    → All (λ x. x ≢ m) xs
All-out b m [] ne all = tt
All-out b m (x ∷ xs) ne (p, ps) = (λ e. ne (ap b.pc (sym e) ∙ p), All-out b m xs ne ps)

All-kept :
    (b : Backend) (m : ℕ) (v : Pc) (xs : List ℕ)
    → All (λ x. x ≢ m) xs
    → All (λ x. b.pc x ≡ registered) xs
    → All (λ x. store b.pc m v x ≡ registered) xs
All-kept b m v [] out all = tt
All-kept b m v (x ∷ xs) (ne, out) (p, ps) =
    (store_other b.pc m x v ne ∙ p, All-kept b m v xs out ps)

-- A thread that has not registered its metric goes on to `v` and may change its `next`.
moved-Holds :
    (b : Backend) (m : ℕ) (v : Pc) (next' : ℕ → Option ℕ) (xs : List ℕ)
    → Holds b xs
    → b.pc m ≢ registered
    → v ≢ registered
    → Chain next' b.queue xs
    → ((n : Option ℕ) → v ≡ linked n → next' m ≡ n)
    → ((x : ℕ) → x ≢ m → next' x ≡ b.next x)
    → Holds (record b { next = next'; pc = store b.pc m v }) xs
moved-Holds b m v next' xs h ne nv c own others = record {
  chain = c;
  inside = All-kept b m v xs (All-out b m xs ne h.inside) h.inside;
  every = λ x e. elim (Nat-cases x m) [
    | inl s ↦ absurd (nv (sym (store_same b.pc m v) ∙ ap (store b.pc m v) (sym s) ∙ e))
    | inr o ↦ h.every x (sym (store_other b.pc m x v o) ∙ e)
  ];
  distinct = h.distinct;
  ready = λ x n e. elim (Nat-cases x m) [
    | inl s ↦ ap next' s ∙ own n (sym (store_same b.pc m v) ∙ ap (store b.pc m v) (sym s) ∙ e)
    | inr o ↦ others x o ∙ h.ready x n (sym (store_other b.pc m x v o) ∙ e)
  ];
}

-- The exchange succeeds: the metric is in front of the others.
exchanged-Holds :
    (b : Backend) (m : ℕ) (n : Option ℕ) (xs : List ℕ)
    → Holds b xs
    → b.pc m ≡ linked n
    → b.queue ≡ n
    → Holds (record b { queue = some m; pc = store b.pc m registered }) (m ∷ xs)
exchanged-Holds b m n xs h at e =
    let ne : b.pc m ≢ registered = λ r. cc in
    let out = All-out b m xs ne h.inside in
    record {
      chain = (refl, subst (λ q. Chain b.next q xs) (e ∙ sym (h.ready m n at)) h.chain);
      inside = (store_same b.pc m registered, All-kept b m registered xs out h.inside);
      every = λ x r. elim (Nat-cases x m) [
        | inl s ↦ inl s
        | inr o ↦ inr (h.every x (sym (store_other b.pc m x registered o) ∙ r))
      ];
      distinct = (out, h.distinct);
      ready = λ x k r. elim (Nat-cases x m) [
        | inl s ↦
            let now : registered ≡ linked k =
              sym (store_same b.pc m registered) ∙ ap (store b.pc m registered) (sym s) ∙ r in
            absurd cc
        | inr o ↦ h.ready x k (sym (store_other b.pc m x registered o) ∙ r)
      ];
    }

-- A step leaves the metrics of the queue as they are, or puts one in front of them.
abbrev pub Advances : Backend → ℕ → List ℕ → Type 0
Advances b m xs = Holds b xs ⊎ Holds b (m ∷ xs)

step_from-Advances :
    (p : Pc) (m : ℕ) (b : Backend) (xs : List ℕ)
    → Holds b xs
    → b.pc m ≡ p
    → Advances (step_from p m b) m xs
unfolding step_from
step_from-Advances idle m b xs h at = inl (
    moved-Holds b m (loaded b.queue) b.next xs h (λ r. cc) (λ r. cc) h.chain (λ n r. absurd cc)
      (λ x o. refl))
step_from-Advances (loaded n) m b xs h at =
    let ne : b.pc m ≢ registered = λ r. cc in
    inl (
      moved-Holds b m (linked n) (store b.next m n) xs h ne (λ r. cc)
        (Chain-store b m n b.queue xs (All-out b m xs ne h.inside) h.chain)
        (λ k r. store_same b.next m n ∙ linked-injective n k r) (λ x o. store_other b.next m x n o))
  where
    linked-injective : (n k : Option ℕ) → linked n ≡ linked k → n ≡ k
    linked-injective n k r = cc
step_from-Advances (linked n) m b xs h at = elim (Bool-cases (same_pointer b.queue n)) [
  | inl t ↦ rw t (inr (exchanged-Holds b m n xs h at (same_pointer-eq b.queue n t)))
  | inr f ↦ rw f (
      inl (
        moved-Holds b m idle b.next xs h (λ r. cc) (λ r. cc) h.chain (λ k r. absurd cc)
          (λ x o. refl)))
]
step_from-Advances registered m b xs h at = inl h

-- However the threads' steps are interleaved, from a queue that holds the registered metrics on, the
-- queue holds every metric that is registered by then exactly once, those that were there among
-- them, and no other.
pub run-Holds :
    (ms : List ℕ) (b : Backend) (xs : List ℕ)
    → Holds b xs
    → (ys : List ℕ) × Holds (run ms b) (ys ++ xs)
unfolding run register_step
run-Holds [] b xs h = ([], h)
run-Holds (m ∷ ms) b xs h = elim (step_from-Advances (b.pc m) m b xs h refl) [
  | inl same ↦ run-Holds ms (step_from (b.pc m) m b) xs same
  | inr more ↦
      let (ys, all) = run-Holds ms (step_from (b.pc m) m b) (m ∷ xs) more in
      (
        ys ++ (m ∷ []),
        subst (Holds (run ms (step_from (b.pc m) m b))) (sym (append_assoc ys (m ∷ []) xs)) all,
      )
]
