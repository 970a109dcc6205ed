-- ===== src/Histogram/Percentile.antt =====
-- The arithmetic of `histo_percentile` in src/histogram.c: `floor((rank * histo->size) + 0.5f)` over
-- IEEE single precision, rounded to nearest, ties to even. A value is counted in units of 2 ^ -24.
use brubeck.Prelude.{ℕ, zero, suc, ◌+◌, ◌*◌, ◌/◌, ◌%◌, ◌^◌, ltb, ◌==◌, if◌then◌else◌}

-- The nearest multiple of `ulp`, and of two that are equally near the even one.
unfoldable pub nearest : ℕ → ℕ → ℕ
nearest ulp p =
    let q = p / ulp in
    let r = p % ulp in
    if ltb (2 * r) ulp
    then q * ulp
    else if ltb ulp (2 * r)
    then (q + 1) * ulp
    else if q % 2 == 0
    then q * ulp
    else (q + 1) * ulp

-- A value of at most 24 bits above `ulp` is rounded to a multiple of it, a larger one more coarsely.
unfoldable pub round_from : ℕ → ℕ → ℕ → ℕ
round_from zero ulp p = nearest ulp p
round_from (suc steps) ulp p =
    let coarser = round_from steps (2 * ulp) p in
    if ltb p (2 ^ 24 * ulp) then nearest ulp p else coarser

-- Sixteen steps reach past the largest value, 65535 * 2 ^ 24.
unfoldable pub to_single : ℕ → ℕ
to_single = round_from 17 1

-- The constants 0.5f, 0.75f, 0.95f, 0.98f, 0.99f and 0.999f.
pub data Rank : Type 0 where
  half pc_75 pc_95 pc_98 pc_99 pc_999 : Rank

unfoldable pub single : Rank → ℕ
single half = 8388608
single pc_75 = 12582912
single pc_95 = 15938355
single pc_98 = 16441672
single pc_99 = 16609444
single pc_999 = 16760439

-- `irank`, for a histogram of that size.
unfoldable pub irank : Rank → ℕ → ℕ
irank rank size = to_single (to_single (single rank * size) + 2 ^ 23) / 2 ^ 24
