-- ===== src/Printing/Tests.antt =====
-- Numbers that are printed.
use brubeck.Prelude.{
  ℕ, ◌+◌, ◌-◌, ◌≡◌, ◌%◌, ◌^◌, refl, arith, List, [], ◌∷◌, ◌++◌, ltb, if◌then◌else◌, codes,
}
use brubeck.Printing.{digits_from, itoa}
use brubeck.Printing.Float.{ftoa, int_text, frac_text, frac_digits, trim}
use brubeck.Printing.Float.Cut.{Reads, ftoa-Reads}

itoa_values :
    (itoa 0 ≡ codes "0")
    × (itoa 4096 ≡ codes "4096")
    × (itoa 4294967295 ≡ codes "4294967295")
    × (itoa 4294967297 ≡ codes "1")
unfolding itoa digits_from
itoa_values = (refl, refl, refl, refl)

-- 0.0, 15.5, -0.125, 1234.567 and 99999.999, of which the last is 100000 as a float.
ftoa_values :
    (ftoa 0 ≡ codes "0")
    × (ftoa 0x41780000 ≡ codes "15.5")
    × (ftoa 0xbe000000 ≡ codes "-0.125")
    × (ftoa 0x449a5225 ≡ codes "1234.567")
    × (ftoa 0x47c35000 ≡ codes "100000")
unfolding ftoa int_text frac_text frac_digits trim itoa digits_from
ftoa_values = (refl, refl, refl, refl, refl)

ftoa-Reads_example :
    (text : List ℕ) × (ftoa 0x449a5225
      ≡ (if ltb 0x449a5225 (2 ^ 31) then [] else b'-' ∷ []) ++ text)
    × Reads (0x449a5225 % 2 ^ 23 + 2 ^ 23) (2 ^ (150 - 137)) text
ftoa-Reads_example = ftoa-Reads 0x449a5225 (omega arith) (omega arith) (omega arith)
