-- ===== src/City.antt =====
-- `CityHash32` of src/city.c, by which a metric is given to a backend. A key is the list of its bytes;
-- a read outside of it is `none`. `uint32_t` values are numbers with the wrap-around written out.
pub mod Reads
mod Tests
use Prim.Native.Nat.{bit_and, bit_or, bit_xor}
use brubeck.Prelude.{
  ℕ, zero, suc, ◌+◌, ◌-◌, ◌*◌, ◌/◌, ◌%◌, ◌^◌, List, [], ◌∷◌, Option, none, some, leb, ltb, ◌==◌,
  if◌then◌else◌, ◌>>=◌, u32, length, get_elem?,
}

-- The lowest byte comes first.
unfoldable pub read32 : List ℕ → ℕ → Option ℕ
read32 s i = do
  b₀ ← get_elem? s i
  b₁ ← get_elem? s (i + 1)
  b₂ ← get_elem? s (i + 2)
  b₃ ← get_elem? s (i + 3)
  some (b₀ + b₁ * 2 ^ 8 + b₂ * 2 ^ 16 + b₃ * 2 ^ 24)

abbrev pub c1 : ℕ
c1 = 0xcc9e2d51

abbrev pub c2 : ℕ
c2 = 0x1b873593

unfoldable pub fmix : ℕ → ℕ
fmix h =
    let h₁ = bit_xor h (h / 2 ^ 16) in
    let h₂ = u32 (h₁ * 0x85ebca6b) in
    let h₃ = bit_xor h₂ (h₂ / 2 ^ 13) in let h₄ = u32 (h₃ * 0xc2b2ae35) in bit_xor h₄ (h₄ / 2 ^ 16)

unfoldable pub ror32 : ℕ → ℕ → ℕ
ror32 val shift =
    if shift == 0 then val else bit_or (val / 2 ^ shift) (u32 (val * 2 ^ (32 - shift)))

-- `h * 5 + 0xe6546b64` after a rotation
unfoldable pub stir : ℕ → ℕ → ℕ
unfolding ror32
stir h shift = u32 (ror32 h shift * 5 + 0xe6546b64)

-- `ror32(a * c1, 17) * c2`
unfoldable pub scramble : ℕ → ℕ
unfolding ror32
scramble a = u32 (ror32 (u32 (a * c1)) 17 * c2)

unfoldable pub mur : ℕ → ℕ → ℕ
unfolding stir scramble
mur a h = stir (bit_xor h (scramble a)) 19

unfoldable pub hash32_len13to24 : List ℕ → Option ℕ
unfolding read32 mur fmix
hash32_len13to24 s =
    let len = length s in
    do
      a ← read32 s (len / 2 - 4)
      b ← read32 s 4
      c ← read32 s (len - 8)
      d ← read32 s (len / 2)
      e ← read32 s 0
      f ← read32 s (len - 4)
      some (fmix (mur f (mur e (mur d (mur c (mur b (mur a (u32 len))))))))

-- `s[i]` is a `char` with a sign.
abbrev pub signed_char : ℕ → ℕ
signed_char b = if ltb b 128 then b else b + (2 ^ 32 - 256)

-- The loop over the bytes, from `b` and `c` on.
unfoldable pub fold_bytes : List ℕ → ℕ → ℕ → ℕ × ℕ
fold_bytes [] b c = (b, c)
fold_bytes (x ∷ xs) b c =
    let b' = u32 (u32 (b * c1) + signed_char x) in fold_bytes xs b' (bit_xor c b')

unfoldable pub hash32_len0to4 : List ℕ → ℕ
unfolding fold_bytes mur fmix
hash32_len0to4 s = let (b, c) = fold_bytes s 0 9 in fmix (mur b (mur (u32 (length s)) c))

unfoldable pub hash32_len5to12 : List ℕ → Option ℕ
unfolding read32 mur fmix
hash32_len5to12 s =
    let len = length s in
    do
      a ← read32 s 0
      b ← read32 s (len - 4)
      c ← read32 s (bit_and (len / 2) 4)
      let d = u32 (len * 5)
      some (fmix (mur (u32 (9 + c)) (mur (u32 (d + b)) (mur (u32 (len + a)) d))))

unfoldable pub bswap_32 : ℕ → ℕ
bswap_32 x =
    x % 2 ^ 8 * 2 ^ 24
    + x / 2 ^ 8 % 2 ^ 8 * 2 ^ 16
    + x / 2 ^ 16 % 2 ^ 8 * 2 ^ 8
    + x / 2 ^ 24 % 2 ^ 8

-- `h`, `g` and `f` of the long case.
pub record Mix : Type 0 where
  pub h : ℕ
  pub g : ℕ
  pub f : ℕ

-- What the last twenty bytes come to.
unfoldable pub mix_tail : List ℕ → Option Mix
unfolding read32 stir scramble
mix_tail s =
    let len = length s in
    let g₀ = u32 (c1 * u32 len) in
    do
      r₀ ← read32 s (len - 4)
      r₁ ← read32 s (len - 8)
      r₂ ← read32 s (len - 16)
      r₃ ← read32 s (len - 12)
      r₄ ← read32 s (len - 20)
      some (record {
        h = stir (bit_xor (stir (bit_xor (u32 len) (scramble r₀)) 19) (scramble r₂)) 19;
        g = stir (bit_xor (stir (bit_xor g₀ (scramble r₁)) 19) (scramble r₃)) 19;
        f = stir (u32 (g₀ + scramble r₄)) 19;
      })

-- A turn of the loop, at `s + i`; `PERMUTE3(f, h, g)` moves f to h, h to g and g to f.
unfoldable pub mix_block : List ℕ → ℕ → Mix → Option Mix
unfolding read32 stir scramble ror32 bswap_32
mix_block s i m = do
  r₀ ← read32 s i
  a1 ← read32 s (i + 4)
  r₂ ← read32 s (i + 8)
  r₃ ← read32 s (i + 12)
  a4 ← read32 s (i + 16)
  let a0 = scramble r₀
  let a2 = scramble r₂
  let a3 = scramble r₃
  let h₁ = stir (bit_xor m.h a0) 18
  let f₁ = u32 (ror32 (u32 (m.f + a1)) 19 * c1)
  let g₁ = stir (u32 (m.g + a2)) 18
  let h₂ = stir (bit_xor h₁ (u32 (a3 + a1))) 19
  let g₂ = u32 (bswap_32 (bit_xor g₁ a4) * 5)
  let h₃ = bswap_32 (u32 (h₂ + a4 * 5))
  let f₂ = u32 (f₁ + a0)
  some (record { f = g₂; h = f₂; g = h₃ })

-- The loop, for as many turns as are left.
unfoldable pub mix_blocks : List ℕ → ℕ → ℕ → Mix → Option Mix
mix_blocks s zero i m = some m
mix_blocks s (suc iters) i m = do m' ← mix_block s i m; mix_blocks s iters (i + 20) m'

unfoldable pub finish : Mix → ℕ
unfolding stir ror32
finish m =
    let turn = λ (x : ℕ) (shift : ℕ). u32 (ror32 x shift * c1) in
    let g = turn (turn m.g 11) 17 in
    let f = turn (turn m.f 11) 17 in
    let h₁ = turn (stir (u32 (m.h + g)) 19) 17 in turn (stir (u32 (h₁ + f)) 19) 17

unfoldable pub city_hash32 : List ℕ → Option ℕ
unfolding hash32_len0to4 hash32_len5to12 hash32_len13to24 mix_tail mix_blocks mix_block finish
city_hash32 s =
    let len = length s in
    if leb len 4
    then some (hash32_len0to4 s)
    else if leb len 12
    then hash32_len5to12 s
    else if leb len 24
    then hash32_len13to24 s
    else (do m ← mix_tail s; m' ← mix_blocks s ((len - 1) / 20) 0 m; some (finish m'))
