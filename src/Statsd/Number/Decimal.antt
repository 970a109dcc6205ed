-- ===== src/Statsd/Number/Decimal.antt =====
-- The numbers that `parse_float` of src/samplers/statsd.c reads, and what they mean to it.
use brubeck.Prelude.{
  ℕ, ◌+◌, ◌≡◌, ◌≢◌, ◌∙◌, refl, List, [], ◌∷◌, ◌++◌, Bool, true, false, All, arith, length,
}
use brubeck.Value.{Double}
use brubeck.Metric.{relative_value}
use brubeck.Statsd.Number.{
  Libc, peek, is_digit, ten, shift_digit, parse_sign, parse_digits, parse_fraction, parse_decimal,
  parse_float,
}

abbrev pub IsDigits : List ℕ → Type 0
IsDigits = All (λ c. is_digit c ≡ true)

-- A text that goes on with no byte that a number may hold.
abbrev pub Ends : List ℕ → Type 0
Ends rest =
    (is_digit (peek rest) ≡ false)
    × (peek rest ≢ b'.')
    × (peek rest ≢ b'e')
    × (peek rest ≢ b'E')
    × (peek rest ≢ b'-')
    × (peek rest ≢ b'+')

module _ {V : Type 0} ⦃d : Double V⦄ where
  -- The value of decimal digits, from the left.
  abbrev pub digits_value : V → List ℕ → V
  digits_value v [] = v
  digits_value v (c ∷ cs) = digits_value (shift_digit v c) cs

  parse_digits_lem :
      (v : V) (ds rest : List ℕ)
      → IsDigits ds
      → is_digit (peek rest) ≡ false
      → parse_digits v (ds ++ rest) ≡ (digits_value v ds, rest)
  unfolding parse_digits
  parse_digits_lem v [] [] h e = refl
  parse_digits_lem v [] (c ∷ rest) h e = rw e
  parse_digits_lem v (c ∷ ds) rest (h, hs) e =
      rw h (parse_digits_lem (shift_digit v c) ds rest hs e)

  parse_fraction_lem :
      (f : V) (n : ℕ) (ds rest : List ℕ)
      → IsDigits ds
      → is_digit (peek rest) ≡ false
      → parse_fraction f n (ds ++ rest) ≡ (digits_value f ds, n + length ds, rest)
  unfolding parse_fraction
  parse_fraction_lem f n [] [] h e = ground arith
  parse_fraction_lem f n [] (c ∷ rest) h e = rw e (ground arith)
  parse_fraction_lem f n (c ∷ ds) rest (h, hs) e =
      rw h (parse_fraction_lem (shift_digit f c) (n + 1) ds rest hs e ∙ ground arith)

-- The parts of a number as it is written.
pub data Sign : Type 0 where
  none_ plus minus : Sign

pub data Fraction : Type 0 where
  whole : Fraction
  point : List ℕ → Fraction

pub record Number : Type 0 where
  pub sign : Sign
  pub digits : List ℕ
  pub fraction : Fraction

abbrev print_sign : Sign → List ℕ → List ℕ
print_sign none_ rest = rest
print_sign plus rest = b'+' ∷ rest
print_sign minus rest = b'-' ∷ rest

abbrev print_fraction : Fraction → List ℕ → List ℕ
print_fraction whole rest = rest
print_fraction (point ds) rest = b'.' ∷ (ds ++ rest)

abbrev pub print_number : Number → List ℕ → List ℕ
print_number w rest = print_sign w.sign (w.digits ++ print_fraction w.fraction rest)

abbrev IsFraction : Fraction → Type 0
IsFraction whole = Unit
IsFraction (point ds) = IsDigits ds

abbrev pub IsNumeral : Number → Type 0
IsNumeral w = IsDigits w.digits × IsFraction w.fraction

module _ {V : Type 0} ⦃d : Double V⦄ (libc : Libc V) where
  abbrev add_fraction : V → Fraction → V
  add_fraction v whole = v
  add_fraction v (point ds) =
      d.add v (d.div (digits_value (d.of_nat 0) ds) (libc.pow ten (d.of_nat (length ds))))

  abbrev apply_sign : Sign → V → V
  apply_sign minus v = d.neg v
  apply_sign _ v = v

  -- What a number means: the digits before and after the point, each from the left, and the sign.
  abbrev pub meaning : Number → V
  meaning w = apply_sign w.sign (add_fraction (digits_value (d.of_nat 0) w.digits) w.fraction)

  parse_decimal_lem :
      (ds : List ℕ) (f : Fraction) (rest : List ℕ)
      → IsDigits ds
      → IsFraction f
      → Ends rest
      → parse_decimal libc (ds ++ print_fraction f rest)
        ≡ (add_fraction (digits_value (d.of_nat 0) ds) f, rest)
  unfolding parse_decimal
  parse_decimal_lem ds whole rest h k e =
      rw (parse_digits_lem (d.of_nat 0) ds rest h e.0) (ground arith)
  parse_decimal_lem ds (point fs) rest h k e =
      rw
        (
          parse_digits_lem (d.of_nat 0) ds (b'.' ∷ (fs ++ rest)) h refl,
          parse_fraction_lem (d.of_nat 0) 0 fs rest k e.0,
        )
        (ground arith)

-- Only a sign makes the value relative.
abbrev pub modifiers_of : Sign → ℕ
modifiers_of none_ = 0
modifiers_of plus = relative_value
modifiers_of minus = relative_value

abbrev is_minus : Sign → Bool
is_minus minus = true
is_minus _ = false

unsigned_start :
    (ds : List ℕ) (f : Fraction) (rest : List ℕ)
    → IsDigits ds
    → Ends rest
    → let c = peek (ds ++ print_fraction f rest) in (c ≢ b'-') × (c ≢ b'+')
unsigned_start [] whole rest h e = (e.4, e.5)
unsigned_start [] (point fs) rest h e = omega arith
unsigned_start (c ∷ ds) f rest h e = ground arith

parse_sign_lem :
    (s : Sign) (text : List ℕ)
    → peek text ≢ b'-'
    → peek text ≢ b'+'
    → parse_sign (print_sign s text) 0 ≡ (is_minus s, modifiers_of s, text)
unfolding parse_sign
parse_sign_lem none_ text h k = ground arith
parse_sign_lem plus text h k = refl
parse_sign_lem minus text h k = refl

module _ {V : Type 0} ⦃d : Double V⦄ (libc : Libc V) where
  -- A number as it is written is read with its meaning, up to the text that follows it.
  pub parse_float-print :
      (w : Number) (rest : List ℕ)
      → IsNumeral w
      → Ends rest
      → parse_float libc (print_number w rest) 0 ≡ (meaning libc w, modifiers_of w.sign, rest)
  unfolding parse_float
  parse_float-print w rest (h, k) e =
      let text = w.digits ++ print_fraction w.fraction rest in
      let (s, t) = unsigned_start w.digits w.fraction rest h e in
      rw (parse_sign_lem w.sign text s t, parse_decimal_lem libc w.digits w.fraction rest h k e)
        (ground arith)
