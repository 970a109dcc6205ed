-- ===== src/Printing/Float/Places.antt =====
-- The decimal places that `brubeck_ftoa` of src/utils.c writes.
use native.Mathlib.Nat.{
  mul-add-div_right, div-add-mod', mod-lt, add-mul, mul_right_comm, mul_assoc, mul_comm,
  div-lt_iff_lt-mul, div-eq_of_lt, pow-suc, mod-le, zero-mul,
}
use brubeck.Prelude.{
  ℕ, zero, suc, ◌+◌, ◌-◌, ◌*◌, ◌/◌, ◌%◌, ◌^◌, ◌<◌, ◌≤◌, ◌≡◌, inl, inr, refl, ap, sym, ◌∙◌, List, [],
  ◌∷◌, arith, u64, ◌==◌, if◌then◌else◌, Bool-cases, length, All,
}
use brubeck.Printing.Digits.{IsDigit}
use brubeck.Printing.Float.{frac_digits, trim}

-- The number of so many decimal places, with zeros for those that are not written.
abbrev pub places : ℕ → List ℕ → ℕ
places zero cs = 0
places (suc n) [] = 0
places (suc n) (c ∷ cs) = (c - b'0') * 10 ^ n + places n cs

scaled : (q r base p : ℕ) → 0 < base → (q * base + r) * p / base ≡ q * p + r * p / base
scaled q r base p pos =
    ap (λ x. x / base) (add-mul (q * base) r p ∙ ap (λ x. x + r * p) (mul_right_comm q base p))
    ∙ mul-add-div_right pos (q * p) (r * p)

-- So many multiplications by ten, from a number on, stay below 2 ^ 64.
abbrev pub NoWrap : ℕ → ℕ → Type 0
NoWrap zero bound = Unit
NoWrap (suc n) bound = (bound * 10 < 2 ^ 64) × NoWrap n (bound * 10)

pub frac_digits-places :
    (n base f bound : ℕ)
    → f ≤ bound
    → NoWrap n bound
    → f < base
    → places n (frac_digits n base f) ≡ f * 10 ^ n / base
unfolding frac_digits
frac_digits-places zero base f bound h wrap small = sym (div-eq_of_lt (omega arith))
frac_digits-places (suc n) base f bound h (fits, wrap) small =
    let pos : 0 < base = omega arith in
    let next = u64 (f * 10) in
    let same : next ≡ f * 10 = omega arith in
    let q = next / base in
    let r = next % base in
    let below : r ≤ bound * 10 = omega (arith, mod-le next base) in
    let rest = frac_digits-places n base r (bound * 10) below wrap (mod-lt next pos) in
    let digit : b'0' + q - b'0' ≡ q = omega arith in
    let power : next * 10 ^ n ≡ f * 10 ^ suc n =
      ap (λ x. x * 10 ^ n) same
      ∙ mul_assoc f 10 (10 ^ n)
      ∙ ap (λ x. f * x) (mul_comm 10 (10 ^ n) ∙ sym (pow-suc 10 n)) in
    ap (λ x. x * 10 ^ n + places n (frac_digits n base r)) digit
    ∙ ap (λ x. q * 10 ^ n + x) rest
    ∙ sym (scaled q r base (10 ^ n) pos)
    ∙ ap (λ x. x * 10 ^ n / base) (div-add-mod' next base)
    ∙ ap (λ x. x / base) power

pub frac_digits-IsDigit :
    (n base f bound : ℕ)
    → f ≤ bound
    → NoWrap n bound
    → f < base
    → All IsDigit (frac_digits n base f) × (length (frac_digits n base f) ≡ n)
unfolding frac_digits
frac_digits-IsDigit zero base f bound h wrap small = (tt, refl)
frac_digits-IsDigit (suc n) base f bound h (fits, wrap) small =
    let pos : 0 < base = omega arith in
    let next = u64 (f * 10) in
    let below : next % base ≤ bound * 10 = omega (arith, mod-le next base) in
    let (all, len) =
      frac_digits-IsDigit n base (next % base) (bound * 10) below wrap (mod-lt next pos) in
    let small' : next / base < 10 = (div-lt_iff_lt-mul pos).1 (omega arith) in
    ((omega arith, all), ap suc len)

places-nil : (n : ℕ) → places n [] ≡ 0
places-nil zero = refl
places-nil (suc n) = refl

-- What trimming makes of a digit and the trimmed places behind it.
abbrev trimmed : ℕ → List ℕ → List ℕ
trimmed c [] = if c == b'0' then [] else c ∷ []
trimmed c (x ∷ xs) = c ∷ x ∷ xs

trim_lem : (c : ℕ) (cs : List ℕ) → trim (c ∷ cs) ≡ trimmed c (trim cs)
unfolding trim
trim_lem c cs = split (trim cs)
  where
    split :
        (t : List ℕ)
        → (elim t [ [] ↦ if c == b'0' then [] else c ∷ [] | ◌∷◌ x xs ↦ c ∷ x ∷ xs ]) ≡ trimmed c t
    split [] = refl
    split (x ∷ xs) = refl

trimmed-places :
    (n c : ℕ) (t : List ℕ) → places (suc n) (trimmed c t) ≡ (c - b'0') * 10 ^ n + places n t
trimmed-places n c (x ∷ xs) = refl
trimmed-places n c [] = elim (Bool-cases (c == b'0')) [
  | inl e ↦
      let none_left : c - b'0' ≡ 0 = ground arith in
      rw (e, none_left, places-nil n, zero-mul (10 ^ n)) refl
  | inr e ↦ rw e refl
]

pub trim-places : (n : ℕ) (cs : List ℕ) → places n (trim cs) ≡ places n cs
unfolding trim
trim-places zero cs = refl
trim-places (suc n) [] = refl
trim-places (suc n) (c ∷ cs) =
    ap (places (suc n)) (trim_lem c cs)
    ∙ trimmed-places n c (trim cs)
    ∙ ap (λ x. (c - b'0') * 10 ^ n + x) (trim-places n cs)

trimmed-IsDigit :
    (c n : ℕ) (t : List ℕ)
    → IsDigit c
    → All IsDigit t
    → length t ≤ n
    → All IsDigit (trimmed c t) × (length (trimmed c t) ≤ suc n)
trimmed-IsDigit c n (x ∷ xs) h hs l = ((h, hs), omega arith)
trimmed-IsDigit c n [] h hs l = elim (Bool-cases (c == b'0')) [
  | inl e ↦ rw e (tt, omega arith)
  | inr e ↦ rw e ((h, tt), omega arith)
]

pub trim-IsDigit :
    (cs : List ℕ) → All IsDigit cs → All IsDigit (trim cs) × (length (trim cs) ≤ length cs)
unfolding trim
trim-IsDigit [] h = (tt, omega arith)
trim-IsDigit (c ∷ cs) (h, hs) =
    let (all, short) = trim-IsDigit cs hs in
    rw (trim_lem c cs) (trimmed-IsDigit c (length cs) (trim cs) h all short)
