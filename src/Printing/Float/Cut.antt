-- ===== src/Printing/Float/Cut.antt =====
-- What `brubeck_ftoa` of src/utils.c writes for the floats that may have a fraction.
use native.Mathlib.Nat.{
  div-eq_of_lt, mod-eq_of_lt, mod-lt, mod-le, div-le_self, zero-div, one-le-pow, pow-le-pow_right,
}
use brubeck.Prelude.{
  ℕ, ◌+◌, ◌-◌, ◌*◌, ◌/◌, ◌%◌, ◌^◌, ◌<◌, ◌≤◌, ◌≡◌, inl, inr, refl, ap, sym, ◌∙◌, List, [], ◌∷◌, ◌++◌,
  arith, true, false, Bool, ltb, leb, ◌==◌, if◌then◌else◌, Bool-cases, length, All,
}
use brubeck.Printing.Digits.{IsDigit, read_from, itoa_lem}
use brubeck.Printing.Float.{frac_digits, trim, point, int_text, frac_text, ftoa}
use brubeck.Printing.Float.Places.{
  NoWrap, places, frac_digits-places, frac_digits-IsDigit, trim-places, trim-IsDigit,
}

if_true : {A : Type 0} (b : Bool) (x y : A) → b ≡ true → (if b then x else y) ≡ x
if_true true x y h = refl
if_true false x y h = cc

if_false : {A : Type 0} (b : Bool) (x y : A) → b ≡ false → (if b then x else y) ≡ y
if_false true x y h = cc
if_false false x y h = refl

-- The text of `m / base`, cut off behind the fourth decimal place.
pub record Reads (m base : ℕ) (text : List ℕ) : Type 0 where
  pub whole : List ℕ
  pub decimals : List ℕ
  pub split : text ≡ whole ++ point decimals
  pub whole_digits : All IsDigit whole
  pub decimal_digits : All IsDigit decimals
  pub short : length whole ≤ 10
  pub few : length decimals ≤ 4
  pub int_part : read_from 0 whole ≡ m / base
  pub frac_part : places 4 decimals ≡ m % base * 10 ^ 4 / base

int_text_lem :
    (n : ℕ)
    → n < 2 ^ 32
    → (length (int_text n) ≤ 10) × All IsDigit (int_text n) × (read_from 0 (int_text n) ≡ n)
unfolding int_text
int_text_lem n h = elim (Bool-cases (n == 0)) [
  | inl e ↦ let nil : n ≡ 0 = ground arith in rw e (omega arith, (omega arith, tt), sym nil)
  | inr e ↦ let (short, digits, value) = itoa_lem n in rw e (short, digits, omega (arith, value))
]

frac_text_lem :
    (base f : ℕ)
    → f < 2 ^ 24
    → f < base
    → (decimals : List ℕ) × (frac_text base f ≡ point decimals)
      × All IsDigit decimals
      × (length decimals ≤ 4)
      × (places 4 decimals ≡ f * 10 ^ 4 / base)
unfolding frac_text
frac_text_lem base f h small = elim (Bool-cases (f == 0)) [
  | inl e ↦
      let nil : f ≡ 0 = ground arith in
      rw e ([], refl, tt, omega arith, sym (ap (λ x. x * 10 ^ 4 / base) nil ∙ zero-div base))
  | inr e ↦
      let wrap : NoWrap 4 (2 ^ 24) =
        (omega arith, (omega arith, (omega arith, (omega arith, tt)))) in
      let digits = frac_digits 4 base f in
      let (all, len) = frac_digits-IsDigit 4 base f (2 ^ 24) (omega arith) wrap small in
      let (all', short) = trim-IsDigit digits all in
      rw e (
        trim digits,
        refl,
        all',
        omega (arith, short, len),
        trim-places 4 digits ∙ frac_digits-places 4 base f (2 ^ 24) (omega arith) wrap small,
      )
]

body-Reads :
    (m base : ℕ)
    → m < 2 ^ 24
    → 0 < base
    → Reads m base (int_text (m / base) ++ frac_text base (m % base))
body-Reads m base h pos =
    let (short, digits, value) = int_text_lem (m / base) (omega (arith, div-le_self m base)) in
    let (decimals, split, all, few, frac) =
      frac_text_lem base (m % base) (omega (arith, mod-le m base)) (mod-lt m pos) in
    record {
      whole = int_text (m / base);
      decimals = decimals;
      split = ap (λ x. int_text (m / base) ++ x) split;
      whole_digits = digits;
      decimal_digits = all;
      short = short;
      few = few;
      int_part = value;
      frac_part = frac;
    }

-- A float of 32 bits, of a magnitude from 2 ^ -36 to below 2 ^ 23, is written as its sign, its whole
-- part of at most ten digits and, behind a point, at most four decimal places: what it is cut off to,
-- without rounding. The point is only there with a place behind it.
pub ftoa-Reads :
    (bits : ℕ)
    → let e = bits / 2 ^ 23 % 2 ^ 8 in
      bits < 2 ^ 32
      → 91 ≤ e
      → e < 150
      → (text : List ℕ) × (ftoa bits ≡ (if ltb bits (2 ^ 31) then [] else b'-' ∷ []) ++ text)
        × Reads (bits % 2 ^ 23 + 2 ^ 23) (2 ^ (150 - e)) text
unfolding ftoa
ftoa-Reads bits h low high =
    let e = bits / 2 ^ 23 % 2 ^ 8 in
    let m = bits % 2 ^ 23 + 2 ^ 23 in
    let base = 2 ^ (150 - e) in
    let pos : 0 < base = omega (arith, one-le-pow (150 - e) 2 (omega arith)) in
    let t₁ : ltb e 91 ≡ false = ground arith in
    let t₂ : leb 191 e ≡ false = ground arith in
    let t₃ : leb 150 e ≡ false = ground arith in
    let reads = body-Reads m base (omega arith) pos in
    let sign = if ltb bits (2 ^ 31) then [] else b'-' ∷ [] in
    let inner =
      if_false (ltb e 91) _ _ t₁ ∙ if_false (leb 191 e) _ _ t₂ ∙ if_false (leb 150 e) _ _ t₃ in
    elim (Bool-cases (leb 127 e)) [
      | inl t ↦ (
        int_text (m / base) ++ frac_text base (m % base),
        ap (λ r. sign ++ r) (inner ∙ if_true (leb 127 e) _ _ t),
        reads,
      )
      | inr t ↦
          let wide : 2 ^ 24 ≤ base =
            pow-le-pow_right {n = 2} (omega arith) {i = 24} {j = 150 - e} (ground arith) in
          let below : m < base = omega arith in
          (
            int_text (m / base) ++ frac_text base (m % base),
            ap (λ r. sign ++ r)
                (inner
                  ∙ if_false (leb 127 e) _ _ t
                  ∙ ap (λ x. int_text x ++ frac_text base m) (sym (div-eq_of_lt below))
                  ∙ ap (λ x. int_text (m / base) ++ frac_text base x) (sym (mod-eq_of_lt below))),
            reads,
          )
    ]
