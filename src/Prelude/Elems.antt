-- ===== src/Prelude/Elems.antt =====
-- The elements of lists that grow, are written to or are reversed.
use Prim.Native.Nat.{ℕ, zero, suc, ◌<◌}
use mathlib.Core.Path.{◌≡◌, refl, ap, subst}
use mathlib.Core.Logic.{◌≢◌}
use mathlib.Core.List.{List, [], ◌∷◌, ◌++◌, reverse, reverse-cons}
use native.Mathlib.Omega.{arith}
use mathlib.Core.Option.{some}
use brubeck.Prelude.Lists.{length, get_elem?, set, alter, All, length-append}

module _ {ℓ} {A : Type ℓ} where
  pub get_elem?-append_some :
      (xs ys : List A) (i : ℕ) (a : A) → get_elem? xs i ≡ some a → get_elem? (xs ++ ys) i ≡ some a
  get_elem?-append_some [] ys i a e = cc
  get_elem?-append_some (x ∷ xs) ys zero a e = e
  get_elem?-append_some (x ∷ xs) ys (suc i) a e = get_elem?-append_some xs ys i a e

  pub get_elem?-append_length :
      (xs : List A) (a : A) (ys : List A) → get_elem? (xs ++ (a ∷ ys)) (length xs) ≡ some a
  get_elem?-append_length [] a ys = refl
  get_elem?-append_length (x ∷ xs) a ys = get_elem?-append_length xs a ys

  pub get_elem?-set_self :
      (xs : List A) (i : ℕ) (a v : A) → get_elem? xs i ≡ some a → get_elem? (set xs i v) i ≡ some v
  get_elem?-set_self [] i a v e = cc
  get_elem?-set_self (x ∷ xs) zero a v e = refl
  get_elem?-set_self (x ∷ xs) (suc i) a v e = get_elem?-set_self xs i a v e

  pub get_elem?-set_other :
      (xs : List A) (i j : ℕ) (v : A) → j ≢ i → get_elem? (set xs i v) j ≡ get_elem? xs j
  get_elem?-set_other [] i j v ne = refl
  get_elem?-set_other (x ∷ xs) zero zero v ne = absurd (ne refl)
  get_elem?-set_other (x ∷ xs) zero (suc j) v ne = refl
  get_elem?-set_other (x ∷ xs) (suc i) zero v ne = refl
  get_elem?-set_other (x ∷ xs) (suc i) (suc j) v ne =
      get_elem?-set_other xs i j v (λ e. ne (rw e refl))

  pub set-set : (xs : List A) (i : ℕ) (a b : A) → set (set xs i a) i b ≡ set xs i b
  set-set [] i a b = refl
  set-set (x ∷ xs) zero a b = refl
  set-set (x ∷ xs) (suc i) a b = ap (◌∷◌ x) (set-set xs i a b)

  pub set_same : (xs : List A) (i : ℕ) (a : A) → get_elem? xs i ≡ some a → set xs i a ≡ xs
  set_same [] i a e = refl
  set_same (x ∷ xs) zero a e = let same : x ≡ a = cc in rw same refl
  set_same (x ∷ xs) (suc i) a e = ap (◌∷◌ x) (set_same xs i a e)

  pub get_elem?-alter_self :
      (xs : List A) (i : ℕ) (a : A) (f : A → A)
      → get_elem? xs i ≡ some a
      → get_elem? (alter xs i f) i ≡ some (f a)
  get_elem?-alter_self [] i a f e = cc
  get_elem?-alter_self (x ∷ xs) zero a f e = cc
  get_elem?-alter_self (x ∷ xs) (suc i) a f e = get_elem?-alter_self xs i a f e

  pub get_elem?-alter_other :
      (xs : List A) (i j : ℕ) (f : A → A) → j ≢ i → get_elem? (alter xs i f) j ≡ get_elem? xs j
  get_elem?-alter_other [] i j f ne = refl
  get_elem?-alter_other (x ∷ xs) zero zero f ne = absurd (ne refl)
  get_elem?-alter_other (x ∷ xs) zero (suc j) f ne = refl
  get_elem?-alter_other (x ∷ xs) (suc i) zero f ne = refl
  get_elem?-alter_other (x ∷ xs) (suc i) (suc j) f ne =
      get_elem?-alter_other xs i j f (λ e. ne (rw e refl))

  pub length-alter : (xs : List A) (i : ℕ) (f : A → A) → length (alter xs i f) ≡ length xs
  length-alter [] i f = refl
  length-alter (x ∷ xs) zero f = refl
  length-alter (x ∷ xs) (suc i) f = ap suc (length-alter xs i f)

  pub get_elem?-lt : (xs : List A) (i : ℕ) (a : A) → get_elem? xs i ≡ some a → i < length xs
  get_elem?-lt [] i a e = cc
  get_elem?-lt (x ∷ xs) zero a e = omega arith
  get_elem?-lt (x ∷ xs) (suc i) a e = omega (arith, get_elem?-lt xs i a e)

  pub get_elem?_total : (xs : List A) (i : ℕ) → i < length xs → (a : A) × (get_elem? xs i ≡ some a)
  get_elem?_total [] i h = absurd (omega arith)
  get_elem?_total (x ∷ xs) zero h = (x, refl)
  get_elem?_total (x ∷ xs) (suc i) h = get_elem?_total xs i (omega arith)

  pub All-get_elem? {κ} :
      (P : A → Type κ) (xs : List A) (i : ℕ) (a : A) → All P xs → get_elem? xs i ≡ some a → P a
  All-get_elem? P [] i a all e = cc
  All-get_elem? P (x ∷ xs) zero a (p, ps) e = let same : x ≡ a = cc in subst P same p
  All-get_elem? P (x ∷ xs) (suc i) a (p, ps) e = All-get_elem? P xs i a ps e

  pub All-of_elems {κ} :
      (P : A → Type κ) (xs : List A) → ((i : ℕ) (a : A) → get_elem? xs i ≡ some a → P a) → All P xs
  All-of_elems P [] h = tt
  All-of_elems P (x ∷ xs) h = (h 0 x refl, All-of_elems P xs (λ i a e. h (suc i) a e))

  pub All-alter {κ} :
      (P : A → Type κ) (xs : List A) (i : ℕ) (f : A → A)
      → ((a : A) → P a → P (f a))
      → All P xs
      → All P (alter xs i f)
  All-alter P [] i f keep all = all
  All-alter P (x ∷ xs) zero f keep (p, ps) = (keep x p, ps)
  All-alter P (x ∷ xs) (suc i) f keep (p, ps) = (p, All-alter P xs i f keep ps)

  pub All-append_one {κ} :
      (P : A → Type κ) (xs : List A) (a : A) → All P xs → P a → All P (xs ++ (a ∷ []))
  All-append_one P [] a all p = (p, tt)
  All-append_one P (x ∷ xs) a (q, qs) p = (q, All-append_one P xs a qs p)

  pub length-reverse : (xs : List A) → length (reverse xs) ≡ length xs
  length-reverse [] = refl
  length-reverse (x ∷ xs) =
      rw (reverse-cons x xs) (omega (arith, length-append (reverse xs) (x ∷ []), length-reverse xs))
