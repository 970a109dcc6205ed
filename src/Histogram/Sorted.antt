-- ===== src/Histogram/Sorted.antt =====
-- What the C library says of `qsort`, and what follows for the `value_cmp` of src/histogram.c.
use mathlib.Core.Logic.Or
use mathlib.Core.Path.{subst}
use mathlib.Core.Logic.{∥∥₁_elim}
use mathlib.Core.Bool.{Bool-set}
use mathlib.Core.List.{Mem, Permᴰ, Perm, mem-cons, not-mem-nil}
use native.Mathlib.Nat.{ℕ_set}
use Prim.Native.Nat.{Ordering}
use brubeck.Prelude.{
  ℕ, zero, suc, ◌≤◌, ◌<◌, ◌≡◌, ◌≢◌, refl, ap, sym, ◌∙◌, List, [], ◌∷◌, ◌++◌, some, arith, length,
  All, get_elem?,
}
use brubeck.Value.{Double, IsNumber, ◌≼◌, IsOrdered}
use brubeck.Histogram.{value_cmp}

abbrev pub Compare : Type 0 → Type 0
Compare V = V → V → Ordering

abbrev pub flip : Ordering → Ordering
flip Ordering.lt = Ordering.gt
flip Ordering.eq = Ordering.eq
flip Ordering.gt = Ordering.lt

module _ {V : Type 0} where
  -- The comparison orders the elements of the list, as `qsort` asks.
  pub record IsConsistent (cmp : Compare V) (xs : List V) : Type 0 where
    pub antisymmetric : (a b : V) → Mem a xs → Mem b xs → cmp a b ≡ flip (cmp b a)
    pub transitive :
        (a b c : V)
        → Mem a xs
        → Mem b xs
        → Mem c xs
        → cmp a b ≢ Ordering.gt
        → cmp b c ≢ Ordering.gt
        → cmp a c ≢ Ordering.gt

  abbrev pub Ascending : Compare V → List V → Type 0
  Ascending cmp [] = Unit
  Ascending cmp (x ∷ xs) = All (λ y. cmp x y ≢ Ordering.gt) xs × Ascending cmp xs

  -- The documented contract: with a consistent comparison the result is a permutation of the array,
  -- in ascending order.
  pub record IsQsort (qsort : Compare V → List V → List V) : Type 0 where
    pub perm : (cmp : Compare V) (xs : List V) → IsConsistent cmp xs → Perm (qsort cmp xs) xs
    pub ascending :
        (cmp : Compare V) (xs : List V) → IsConsistent cmp xs → Ascending cmp (qsort cmp xs)

module _ {V : Type 0} where
  pub All-map₂ :
      {P Q R : V → Type 0} (xs : List V)
      → ((a : V) → P a → Q a → R a)
      → All P xs
      → All Q xs
      → All R xs
  All-map₂ [] f h k = tt
  All-map₂ (x ∷ xs) f (h, hs) (k, ks) = (f x h k, All-map₂ xs f hs ks)

  pub All-mem :
      {P : V → Type 0}
      → ((v : V) → IsProp (P v))
      → (xs : List V) (a : V) → All P xs
      → Mem a xs
      → P a
  All-mem prop [] a h m = absurd (not-mem-nil m)
  All-mem {P = P} prop (x ∷ xs) a (h, hs) m =
      Or.elim (prop a) (mem-cons.0 m) (λ e. subst P (sym e) h) (All-mem prop xs a hs)

  pub All-of_mem : {P : V → Type 0} (xs : List V) → ((v : V) → Mem v xs → P v) → All P xs
  All-of_mem [] f = tt
  All-of_mem (x ∷ xs) f =
      (f x (mem-cons.1 (Or.inl refl)), All-of_mem xs (λ v m. f v (mem-cons.1 (Or.inr m))))

  length-permᴰ : {xs ys : List V} → Permᴰ xs ys → length xs ≡ length ys
  length-permᴰ Permᴰ.nil = refl
  length-permᴰ (Permᴰ.cons e p) = ap suc (length-permᴰ p)
  length-permᴰ (Permᴰ.swap e f) = refl
  length-permᴰ (Permᴰ.trans p q) = length-permᴰ p ∙ length-permᴰ q

  pub length-perm : {xs ys : List V} → Perm xs ys → length xs ≡ length ys
  length-perm p = ∥∥₁_elim p (ℕ_set _ _) length-permᴰ

  pub mem-get_elem? : (xs : List V) (i : ℕ) (v : V) → get_elem? xs i ≡ some v → Mem v xs
  mem-get_elem? [] i v h = cc
  mem-get_elem? (x ∷ xs) zero v h = mem-cons.1 (Or.inl (cc))
  mem-get_elem? (x ∷ xs) (suc i) v h = mem-cons.1 (Or.inr (mem-get_elem? xs i v h))

  pub get_elem?_append :
      (xs ys : List V) (i : ℕ) → i < length xs → get_elem? (xs ++ ys) i ≡ get_elem? xs i
  get_elem?_append [] ys i h = absurd (omega arith)
  get_elem?_append (x ∷ xs) ys zero h = refl
  get_elem?_append (x ∷ xs) ys (suc i) h = get_elem?_append xs ys i (omega arith)

-- On numbers `value_cmp` is consistent, and its order is that of `<=`.
module _ {V : Type 0} ⦃d : Double V⦄ (laws : IsOrdered V) where
  value_cmp-flip : (a b : V) → IsNumber a → IsNumber b → value_cmp a b ≡ flip (value_cmp b a)
  unfolding value_cmp
  value_cmp-flip a b ha hb =
      ground
        (arith, laws.le_total a b ha hb, laws.lt-eq-not-le a b ha hb, laws.lt-eq-not-le b a hb ha)

  pub le_of_value_cmp : (a b : V) → IsNumber a → IsNumber b → value_cmp a b ≢ Ordering.gt → a ≼ b
  unfolding value_cmp
  le_of_value_cmp a b ha hb h =
      ground
        (arith, laws.le_total a b ha hb, laws.lt-eq-not-le a b ha hb, laws.lt-eq-not-le b a hb ha)

  value_cmp_of_le : (a b : V) → IsNumber a → IsNumber b → a ≼ b → value_cmp a b ≢ Ordering.gt
  unfolding value_cmp
  value_cmp_of_le a b ha hb h =
      ground
        (arith, laws.le_total a b ha hb, laws.lt-eq-not-le a b ha hb, laws.lt-eq-not-le b a hb ha)

  pub value_cmp-IsConsistent : (xs : List V) → All IsNumber xs → IsConsistent value_cmp xs
  value_cmp-IsConsistent xs h = record {
    antisymmetric = λ a b m n. value_cmp-flip a b (number a m) (number b n);
    transitive = λ a b c m n o p q. value_cmp_of_le a c (number a m) (number c o) (
        laws.le_trans a b c (le_of_value_cmp a b (number a m) (number b n) p)
          (le_of_value_cmp b c (number b n) (number c o) q));
  }
    where
      number : (v : V) → Mem v xs → IsNumber v
      number v m = All-mem (λ u. Bool-set _ _) xs v h m

  -- In an ascending list of numbers a later element is not smaller.
  pub get_elem?_mono :
      (xs : List V) (i j : ℕ) (a b : V)
      → All IsNumber xs
      → Ascending value_cmp xs
      → i ≤ j
      → get_elem? xs i ≡ some a
      → get_elem? xs j ≡ some b
      → a ≼ b
  get_elem?_mono [] i j a b n s h p q = cc
  get_elem?_mono (x ∷ xs) zero zero a b (n, ns) s h p q = ground arith
  get_elem?_mono (x ∷ xs) zero (suc j) a b (n, ns) (s, ss) h p q =
      let m = mem-get_elem? xs j b q in
      let num = All-mem (λ v. Bool-set _ _) xs b ns m in
      let below = All-mem (λ v. hlevel) xs b s m in ground (arith, le_of_value_cmp x b n num below)
  get_elem?_mono (x ∷ xs) (suc i) zero a b n s h p q = absurd (omega arith)
  get_elem?_mono (x ∷ xs) (suc i) (suc j) a b (n, ns) (s, ss) h p q =
      get_elem?_mono xs i j a b ns ss (omega arith) p q

  -- Every element has an index.
  pub All-le_of_last :
      (xs : List V) (b : V) (last : ℕ)
      → All IsNumber xs
      → Ascending value_cmp xs
      → length xs ≡ suc last
      → get_elem? xs last ≡ some b
      → All (λ v. v ≼ b) xs
  All-le_of_last [] b last n s h q = tt
  All-le_of_last (x ∷ []) b zero n s h q = let e : x ≡ b = cc in (rw (← e) n.0, tt)
  All-le_of_last (x ∷ y ∷ xs) b zero n s h q = absurd (omega arith)
  All-le_of_last (x ∷ xs) b (suc last) (n, ns) s h q = (
    get_elem?_mono (x ∷ xs) 0 (suc last) x b (n, ns) s (omega arith) refl q,
    All-le_of_last xs b last ns s.1 (omega arith) q,
  )

  pub All-first_le :
      (xs : List V) (a : V)
      → All IsNumber xs
      → Ascending value_cmp xs
      → get_elem? xs 0 ≡ some a
      → All (λ v. a ≼ v) xs
  All-first_le [] a n s q = tt
  All-first_le (x ∷ xs) a (n, ns) (s, ss) q =
      let e : x ≡ a = cc in
      subst (λ t. All (λ v. t ≼ v) (x ∷ xs)) e (n, All-map₂ xs (λ v. le_of_value_cmp x v n) ns s)
