-- ===== src/Printing/Float.antt =====
-- `brubeck_ftoa` of src/utils.c. A float is the number that its 32 bits make up; the type of the
-- parts is `uint64_t`.
pub mod Places
pub mod Cut
use brubeck.Prelude.{
  ℕ, zero, suc, ◌+◌, ◌-◌, ◌*◌, ◌/◌, ◌%◌, ◌^◌, List, [], ◌∷◌, ◌++◌, leb, ltb, ◌==◌, if◌then◌else◌,
  u64,
}
use brubeck.Printing.{itoa}

-- `FLOAT_PRECISION`
abbrev pub float_precision : ℕ
float_precision = 4

-- The loop over the places, where `base` is 1 in the fixed point of `frac_part`.
unfoldable pub frac_digits : ℕ → ℕ → ℕ → List ℕ
frac_digits zero base frac = []
frac_digits (suc m) base frac =
    let next = u64 (frac * 10) in (b'0' + next / base) ∷ frac_digits m base (next % base)

-- The places without the zeros at their end.
unfoldable pub trim : List ℕ → List ℕ
trim [] = []
trim (c ∷ cs) = elim (trim cs) [ [] ↦ if c == b'0' then [] else c ∷ [] | ◌∷◌ x xs ↦ c ∷ x ∷ xs ]

-- The point goes with the last of the places.
abbrev pub point : List ℕ → List ℕ
point [] = []
point (c ∷ cs) = b'.' ∷ c ∷ cs

unfoldable pub int_text : ℕ → List ℕ
int_text int_part = if int_part == 0 then b'0' ∷ [] else itoa int_part

unfoldable pub frac_text : ℕ → ℕ → List ℕ
unfolding frac_digits trim
frac_text base frac_part =
    if frac_part == 0 then [] else point (trim (frac_digits float_precision base frac_part))

-- `exp2` is `e - 127`, and `24 + safe_shift` is `150 - e`; from `e = 150` on there is no fraction, and
-- the mask is not used.
unfoldable pub ftoa : ℕ → List ℕ
unfolding int_text frac_text
ftoa bits =
    let e = bits / 2 ^ 23 % 2 ^ 8 in
    let mantissa = bits % 2 ^ 23 + 2 ^ 23 in
    let sign = if ltb bits (2 ^ 31) then [] else b'-' ∷ [] in
    let base = 2 ^ (150 - e) in
    sign
    ++ (if ltb e 91
        then b'0' ∷ []
        else if leb 191 e
        then int_text (2 ^ 64 - 1)
        else if leb 150 e
        then int_text (u64 (mantissa * 2 ^ (e - 150)))
        else if leb 127 e
        then int_text (mantissa / base) ++ frac_text base (mantissa % base)
        else int_text 0 ++ frac_text base mantissa)
