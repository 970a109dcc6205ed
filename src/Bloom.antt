-- ===== src/Bloom.antt =====
-- The replay filters of src/bloom.c and src/bloom.h: several bit sets of one size, each a list of
-- bytes. A fault (a division by zero, an access outside of a filter) is `none`.
pub mod Check
pub mod Filters
mod Tests
use brubeck.Prelude.{
  ℕ, zero, suc, ◌+◌, ◌*◌, ◌/◌, ◌%◌, List, [], ◌∷◌, Option, none, some, Bool, ◌==◌, if◌then◌else◌,
  ◌>>=◌, u32, get_elem?, set, replicate,
}

pub record Multibloom : Type 0 where
  pub bits : ℕ
  pub bytes : ℕ
  pub hashes : ℕ
  pub filters : List (List ℕ)

-- `c & (1 << k)` is not zero.
unfoldable pub test_bit : ℕ → ℕ → Bool
test_bit c zero = c % 2 == 1
test_bit c (suc k) = test_bit (c / 2) k

-- `c | (1 << k)`
unfoldable pub or_bit : ℕ → ℕ → ℕ
or_bit c zero = c / 2 * 2 + 1
or_bit c (suc k) = c % 2 + or_bit (c / 2) k * 2

-- `(a + i * b) % bloom->bits` on `uint32_t`.
unfoldable pub position : ℕ → ℕ → ℕ → ℕ → ℕ
position bits a b i = u32 (a + u32 (i * b)) % bits

-- One turn of the loop: 1 if the bit is there, and the filter with the bit.
unfoldable pub probe : List ℕ → ℕ → Option (ℕ × List ℕ)
probe filter x = do
  c ← get_elem? filter (x / 8)
  (if test_bit c (x % 8) then some (1, filter) else some (0, set filter (x / 8) (or_bit c (x % 8))))

-- The turns from `i` on: the hits, and the filter.
unfoldable pub check_from : ℕ → ℕ → ℕ → ℕ → ℕ → ℕ → List ℕ → Option (ℕ × List ℕ)
check_from bits a b zero i hits filter = some (hits, filter)
check_from bits a b (suc n) i hits filter = if bits == 0 then none else (do
  (hit, filter') ← probe filter (position bits a b i)
  check_from bits a b n (suc i) (hits + hit) filter')

unfoldable pub multibloom_check : Multibloom → ℕ → ℕ → ℕ → Option (Bool × Multibloom)
multibloom_check bloom f a b = do
  filter ← get_elem? bloom.filters f
  (hits, filter') ← check_from bloom.bits a b bloom.hashes 0 0 filter
  some (hits == bloom.hashes, record bloom { filters = set bloom.filters f filter' })

unfoldable pub multibloom_reset : Multibloom → ℕ → Option Multibloom
multibloom_reset bloom f = do
  filter ← get_elem? bloom.filters f
  some (record bloom { filters = set bloom.filters f (replicate bloom.bytes 0) })

-- The bits and hashes that the entries and the error come to are given: the logarithm is the C
-- library's.
unfoldable pub multibloom_new : ℕ → ℕ → ℕ → Multibloom
multibloom_new filters bits hashes =
    let bytes = if bits % 8 == 0 then bits / 8 else bits / 8 + 1 in
    record {
      bits = bits;
      bytes = bytes;
      hashes = hashes;
      filters = replicate filters (replicate bytes 0);
    }
