-- ===== src/Prelude/Words.antt =====
-- Machine words. A value of w bits is a number below 2 ^ w, and the wrap-around is written out.
use Prim.Native.Nat.{ℕ, ◌%◌, ◌^◌}

-- A conversion to `uint8_t`, `uint16_t`, `uint32_t` or `uint64_t`.
abbrev pub u8 : ℕ → ℕ
u8 n = n % 2 ^ 8

abbrev pub u16 : ℕ → ℕ
u16 n = n % 2 ^ 16

abbrev pub u32 : ℕ → ℕ
u32 n = n % 2 ^ 32

abbrev pub u64 : ℕ → ℕ
u64 n = n % 2 ^ 64
