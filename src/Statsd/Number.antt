-- ===== src/Statsd/Number.antt =====
-- `parse_float` of src/samplers/statsd.c. The text is what lies from the cursor to the end of the
-- message, where a zero byte stands; so a read past the last byte of the list gives zero.
pub mod Decimal
use Prim.Native.Nat.{bit_or}
use brubeck.Prelude.{
  ℕ, ◌+◌, ◌-◌, List, [], ◌∷◌, Bool, true, false, ◌&&◌, ◌||◌, ltb, leb, ◌==◌, if◌then◌else◌,
}
use brubeck.Value.{Double}
use brubeck.Metric.{relative_value}

-- What the C library computes: `pow`, and `strtod` with the text from its `endptr` on.
pub record Libc (V : Type 0) : Type 0 where
  pub pow : V → V → V
  pub strtod : List ℕ → V × List ℕ

-- `*buffer`
abbrev pub peek : List ℕ → ℕ
peek [] = 0
peek (c ∷ cs) = c

abbrev pub skip : List ℕ → List ℕ
skip [] = []
skip (c ∷ cs) = cs

abbrev pub is_digit : ℕ → Bool
is_digit c = leb b'0' c && leb c b'9'

-- The sign: whether the number is negative, the modifiers, and the text after it.
unfoldable pub parse_sign : List ℕ → ℕ → Bool × ℕ × List ℕ
parse_sign text mods =
    if peek text == b'-'
    then (true, bit_or mods relative_value, skip text)
    else if peek text == b'+'
    then (false, bit_or mods relative_value, skip text)
    else (false, mods, text)

module _ {V : Type 0} ⦃d : Double V⦄ where
  abbrev pub ten : V
  ten = d.of_nat 10

  -- `(value * 10.0) + (*buffer - '0')`
  abbrev pub shift_digit : V → ℕ → V
  shift_digit value c = d.add (d.mul value ten) (d.of_nat (c - b'0'))

  -- The first `while`: the value of the digits, and the text after them.
  unfoldable pub parse_digits : V → List ℕ → V × List ℕ
  parse_digits value [] = (value, [])
  parse_digits value (c ∷ cs) =
      if is_digit c then parse_digits (shift_digit value c) cs else (value, c ∷ cs)

  -- The second one counts the digits.
  unfoldable pub parse_fraction : V → ℕ → List ℕ → V × ℕ × List ℕ
  parse_fraction f n [] = (f, n, [])
  parse_fraction f n (c ∷ cs) =
      if is_digit c then parse_fraction (shift_digit f c) (n + 1) cs else (f, n, c ∷ cs)

  -- The digits with a point and a fraction, if there is one.
  unfoldable pub parse_decimal : Libc V → List ℕ → V × List ℕ
  parse_decimal libc text =
      let (value, rest) = parse_digits (d.of_nat 0) text in
      if peek rest == b'.'
      then (let (f, n, rest') = parse_fraction (d.of_nat 0) 0 (skip rest) in
          (d.add value (d.div f (libc.pow ten (d.of_nat n))), rest'))
      else (value, rest)

  -- The value, the modifiers and the text after the number. With an exponent the whole number is
  -- read again by `strtod`.
  unfoldable pub parse_float : Libc V → List ℕ → ℕ → V × ℕ × List ℕ
  parse_float libc text mods =
      let (negative, mods', unsigned) = parse_sign text mods in
      let (value, rest) = parse_decimal libc unsigned in
      let signed = if negative then d.neg value else value in
      if (peek rest == b'e') || (peek rest == b'E')
      then (let (value', rest') = libc.strtod text in (value', mods', rest'))
      else (signed, mods', rest)
