-- ===== src/Printing/Digits.antt =====
-- What `brubeck_itoa` of src/utils.c writes is the number in decimal digits.
use mathlib.Core.List.{reverse, reverse-cons}
use brubeck.Prelude.{
  length-reverse, All-append_one, ℕ, zero, suc, ◌+◌, ◌-◌, ◌*◌, ◌/◌, ◌%◌, ◌^◌, ◌≤◌, ◌≡◌, inl, inr,
  refl, sym, ◌∙◌, List, [], ◌∷◌, ◌++◌, ◌==◌, arith, u32, All, length, Bool-cases,
}
use brubeck.Printing.{digits_from, itoa}

-- The number of a text of digits, read from the left on from a number.
abbrev pub read_from : ℕ → List ℕ → ℕ
read_from n [] = n
read_from n (c ∷ cs) = read_from (n * 10 + (c - b'0')) cs

abbrev value : List ℕ → ℕ
value [] = 0
value (c ∷ cs) = c - b'0' + value cs * 10

abbrev pub IsDigit : ℕ → Type 0
IsDigit c = (b'0' ≤ c) × (c ≤ b'9')

-- At most so many decimal digits.
abbrev Fits : ℕ → ℕ → Type 0
Fits zero n = n ≡ 0
Fits (suc k) n = Fits k (n / 10)

read_from-append :
    (n : ℕ) (xs : List ℕ) (c : ℕ) → read_from n (xs ++ (c ∷ [])) ≡ read_from n xs * 10 + (c - b'0')
read_from-append n [] c = refl
read_from-append n (x ∷ xs) c = read_from-append (n * 10 + (x - b'0')) xs c

read_from-reverse : (xs : List ℕ) → read_from 0 (reverse xs) ≡ value xs
read_from-reverse [] = refl
read_from-reverse (x ∷ xs) =
    rw (reverse-cons x xs, read_from-append 0 (reverse xs) x, read_from-reverse xs) (omega arith)

All-reverse : (xs : List ℕ) → All IsDigit xs → All IsDigit (reverse xs)
All-reverse [] all = tt
All-reverse (x ∷ xs) (p, ps) =
    rw (reverse-cons x xs) (All-append_one IsDigit (reverse xs) x (All-reverse xs ps) p)

digits_from-value : (turns n : ℕ) → Fits turns n → value (digits_from turns n) ≡ n
unfolding digits_from
digits_from-value zero n f = sym f
digits_from-value (suc turns) n f =
    let rest = digits_from-value turns (n / 10) f in
    elim (Bool-cases (n / 10 == 0)) [
      | inl e ↦ rw e (ground (arith, e))
      | inr e ↦ rw e (omega (arith, rest))
    ]

digits_from-IsDigit : (turns n : ℕ) → All IsDigit (digits_from turns n)
unfolding digits_from
digits_from-IsDigit zero n = tt
digits_from-IsDigit (suc turns) n =
    let rest = digits_from-IsDigit turns (n / 10) in
    elim (Bool-cases (n / 10 == 0)) [
      | inl e ↦ rw e (omega arith, tt)
      | inr e ↦ rw e (omega arith, rest)
    ]

length-digits_from : (turns n : ℕ) → length (digits_from turns n) ≤ turns
unfolding digits_from
length-digits_from zero n = omega arith
length-digits_from (suc turns) n =
    let rest = length-digits_from turns (n / 10) in
    elim (Bool-cases (n / 10 == 0)) [
      | inl e ↦ rw e (omega arith)
      | inr e ↦ rw e (omega (arith, rest))
    ]

-- The text of a number is at most ten bytes, all digits, and reads as the number modulo 2 ^ 32.
pub itoa_lem :
    (number : ℕ)
    → (length (itoa number) ≤ 10)
      × All IsDigit (itoa number)
      × (read_from 0 (itoa number) ≡ number % 2 ^ 32)
unfolding itoa
itoa_lem number =
    let digits = digits_from 10 (u32 number) in
    (
      omega (arith, length-reverse digits, length-digits_from 10 (u32 number)),
      All-reverse digits (digits_from-IsDigit 10 (u32 number)),
      read_from-reverse digits ∙ digits_from-value 10 (u32 number) (omega arith),
    )
