-- ===== src/Prelude/Text.antt =====
-- Texts as the lists of their bytes.
use Prim.Native.Nat.{ℕ}
use Prim.Native.Char.{code}
use Prim.Native.String.{String}
use mathlib.Core.Path.{◌≡◌, refl}
use mathlib.Core.Logic.{◌≢◌, ◌↔◌, ◌⊎◌, inl, inr}
use mathlib.Core.Bool.{Bool, true, false, ◌&&◌}
use mathlib.Core.List.{List, [], ◌∷◌, ◌++◌}
use native.Mathlib.Omega.{arith}
use brubeck.Prelude.Tests.{◌==◌, Bool-cases}

-- The code points of a text: its bytes, if it is ASCII.
abbrev pub codes : String → List ℕ
codes String.[] = []
codes (String.◌∷◌ c s) = code c ∷ codes s

abbrev pub text_eq : List ℕ → List ℕ → Bool
text_eq [] [] = true
text_eq [] (y ∷ ys) = false
text_eq (x ∷ xs) [] = false
text_eq (x ∷ xs) (y ∷ ys) = (x == y) && text_eq xs ys

pub text_eq_iff : (xs ys : List ℕ) → (text_eq xs ys ≡ true) ↔ (xs ≡ ys)
text_eq_iff [] [] = (λ _. refl, λ _. refl)
text_eq_iff [] (y ∷ ys) = (λ e. cc, λ e. cc)
text_eq_iff (x ∷ xs) [] = (λ e. cc, λ e. cc)
text_eq_iff (x ∷ xs) (y ∷ ys) = ground (arith, text_eq_iff xs ys)

pub text_eq_self : (k : List ℕ) → text_eq k k ≡ true
text_eq_self k = (text_eq_iff k k).1 refl

pub text_ne : (j k : List ℕ) → j ≢ k → text_eq j k ≡ false
text_ne j k ne = ground (arith, text_eq_iff j k)

pub text_cases : (j k : List ℕ) → (j ≡ k) ⊎ (j ≢ k)
text_cases j k = elim (Bool-cases (text_eq j k)) [
  | inl e ↦ inl ((text_eq_iff j k).0 e)
  | inr e ↦ inr (λ same. cc (text_eq_self k, same, e))
]

-- `starts_with` of src/utils.h.
abbrev pub starts_with : List ℕ → List ℕ → Bool
starts_with str [] = true
starts_with [] (c ∷ prefix) = false
starts_with (x ∷ str) (c ∷ prefix) = (x == c) && starts_with str prefix

pub starts_with-append : (prefix rest : List ℕ) → starts_with (prefix ++ rest) prefix ≡ true
starts_with-append [] rest = refl
starts_with-append (c ∷ prefix) rest =
    let same : (c == c) ≡ true = ground arith in rw (same, starts_with-append prefix rest) refl
