-- ===== src/Printing.antt =====
-- `brubeck_itoa` of src/utils.c. The buffer is the list of the bytes that are written to it.
pub mod Digits
pub mod Float
mod Tests
use mathlib.Core.List.{reverse}
use brubeck.Prelude.{ℕ, zero, suc, ◌+◌, ◌/◌, ◌%◌, List, [], ◌∷◌, ◌==◌, if◌then◌else◌, u32}

-- The `do` loop, for at most that many turns: the digits, the last one first.
unfoldable pub digits_from : ℕ → ℕ → List ℕ
digits_from zero number = []
digits_from (suc turns) number =
    let rest = digits_from turns (number / 10) in
    (b'0' + number % 10) ∷ (if number / 10 == 0 then [] else rest)

-- Ten turns; the swaps from both ends reverse the digits.
unfoldable pub itoa : ℕ → List ℕ
itoa number = reverse (digits_from 10 (u32 number))
