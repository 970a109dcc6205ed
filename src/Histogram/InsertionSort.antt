-- ===== src/Histogram/InsertionSort.antt =====
-- A sorting routine that keeps the contract of `qsort`, so that what src/histogram.c relies on can
-- be met.
use mathlib.Core.List.{Mem, Perm}
use mathlib.Core.List.Perm
use Prim.Native.Nat.{Ordering}
use brubeck.Prelude.{◌≡◌, ◌≢◌, refl, ◌⊎◌, inl, inr, List, [], ◌∷◌, All, arith}
use brubeck.Histogram.Sorted.{Compare, flip, Ascending, IsQsort, All-map₂, All-of_mem}

Ordering-cases : (o : Ordering) → (o ≡ Ordering.gt) ⊎ (o ≢ Ordering.gt)
Ordering-cases Ordering.lt = inr (cc)
Ordering-cases Ordering.eq = inr (cc)
Ordering-cases Ordering.gt = inl refl

module _ {V : Type 0} where
  insert : Compare V → V → List V → List V
  insert cmp x [] = x ∷ []
  insert cmp x (y ∷ ys) = elim (cmp x y) [ Ordering.gt ↦ y ∷ insert cmp x ys | _ ↦ x ∷ y ∷ ys ]

  unfoldable pub insertion_sort : Compare V → List V → List V
  unfolding insert
  insertion_sort cmp [] = []
  insertion_sort cmp (x ∷ xs) = insert cmp x (insertion_sort cmp xs)

  insert_of_le :
      (cmp : Compare V) (x y : V) (ys : List V)
      → cmp x y ≢ Ordering.gt
      → insert cmp x (y ∷ ys) ≡ x ∷ y ∷ ys
  unfolding insert
  insert_of_le cmp x y ys h = ground arith

  insert_of_gt :
      (cmp : Compare V) (x y : V) (ys : List V)
      → cmp x y ≡ Ordering.gt
      → insert cmp x (y ∷ ys) ≡ y ∷ insert cmp x ys
  unfolding insert
  insert_of_gt cmp x y ys h = ground arith

  insert-perm : (cmp : Compare V) (x : V) (ys : List V) → Perm (insert cmp x ys) (x ∷ ys)
  insert-perm cmp x [] = unfold insert in Perm.refl _
  insert-perm cmp x (y ∷ ys) = elim (Ordering-cases (cmp x y)) [
    | inl e ↦
        rw (insert_of_gt cmp x y ys e)
          (Perm.trans (Perm.cons y (insert-perm cmp x ys)) (Perm.swap x y ys))
    | inr h ↦ rw (insert_of_le cmp x y ys h) (Perm.refl _)
  ]

  insertion_sort-perm : (cmp : Compare V) (xs : List V) → Perm (insertion_sort cmp xs) xs
  unfolding insertion_sort
  insertion_sort-perm cmp [] = Perm.refl _
  insertion_sort-perm cmp (x ∷ xs) =
      Perm.trans (insert-perm cmp x (insertion_sort cmp xs))
        (Perm.cons x (insertion_sort-perm cmp xs))

  All-insert :
      (Q : V → Type 0) (cmp : Compare V) (x : V) (ys : List V)
      → Q x
      → All Q ys
      → All Q (insert cmp x ys)
  All-insert Q cmp x [] q qs = unfold insert in (q, tt)
  All-insert Q cmp x (y ∷ ys) q (p, ps) = elim (Ordering-cases (cmp x y)) [
    | inl e ↦ rw (insert_of_gt cmp x y ys e) (p, All-insert Q cmp x ys q ps)
    | inr h ↦ rw (insert_of_le cmp x y ys h) (q, (p, ps))
  ]

  All-insertion_sort :
      (Q : V → Type 0) (cmp : Compare V) (xs : List V) → All Q xs → All Q (insertion_sort cmp xs)
  unfolding insertion_sort
  All-insertion_sort Q cmp [] q = tt
  All-insertion_sort Q cmp (x ∷ xs) (q, qs) =
      All-insert Q cmp x (insertion_sort cmp xs) q (All-insertion_sort Q cmp xs qs)

  -- The comparison orders the values of which `P` holds.
  module _ (cmp : Compare V) (P : V → Type 0)
      (antisymmetric : (a b : V) → P a → P b → cmp a b ≡ flip (cmp b a))
      (transitive : (a b c : V)
        → P a
        → P b
        → P c
        → cmp a b ≢ Ordering.gt
        → cmp b c ≢ Ordering.gt
        → cmp a c ≢ Ordering.gt) where
    insert-Ascending :
        (x : V) (ys : List V) → P x → All P ys → Ascending cmp ys → Ascending cmp (insert cmp x ys)
    insert-Ascending x [] p ps s = unfold insert in (tt, tt)
    insert-Ascending x (y ∷ ys) p (q, qs) (s, ss) = elim (Ordering-cases (cmp x y)) [
      | inl e ↦
          let back : cmp y x ≢ Ordering.gt = ground (arith, antisymmetric y x q p) in
          rw (insert_of_gt cmp x y ys e)
            (All-insert _ cmp x ys back s, insert-Ascending x ys p qs ss)
      | inr h ↦
          rw (insert_of_le cmp x y ys h)
            ((h, All-map₂ ys (λ z r. transitive x y z p q r h) qs s), (s, ss))
    ]

    insertion_sort-Ascending : (xs : List V) → All P xs → Ascending cmp (insertion_sort cmp xs)
    unfolding insertion_sort
    insertion_sort-Ascending [] p = tt
    insertion_sort-Ascending (x ∷ xs) (p, ps) =
        insert-Ascending x (insertion_sort cmp xs) p (All-insertion_sort _ cmp xs ps)
          (insertion_sort-Ascending xs ps)

pub insertion_sort-IsQsort : (V : Type 0) → IsQsort {V = V} insertion_sort
insertion_sort-IsQsort V = record {
  perm = λ cmp xs c. insertion_sort-perm cmp xs;
  ascending = λ cmp xs c.
      insertion_sort-Ascending cmp (λ v. Mem v xs) c.antisymmetric c.transitive xs
        (All-of_mem xs (λ v m. m));
}
