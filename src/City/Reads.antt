-- ===== src/City/Reads.antt =====
-- `CityHash32` of src/city.c reads inside its key, whatever the length.
use Prim.Native.Nat.{bit_and}
use brubeck.Prelude.{
  ℕ, zero, suc, ◌+◌, ◌-◌, ◌*◌, ◌/◌, ◌≤◌, ◌<◌, ◌≡◌, refl, List, Option, some, arith, length,
  get_elem?, get_or, get_elem?-get_or, leb, ◌>>=◌, inl, inr, Bool-cases,
}
use brubeck.City.{
  Mix, read32, hash32_len5to12, hash32_len13to24, mix_tail, mix_block, mix_blocks, city_hash32,
}

abbrev pub Succeeds {ℓ} : {A : Type ℓ} → Option A → Type ℓ
Succeeds {A} m = (a : A) × (m ≡ some a)

>>=-Succeeds {ℓ κ} :
    {A : Type ℓ} {B : Type κ} (m : Option A) (f : A → Option B)
    → Succeeds m
    → ((a : A) → Succeeds (f a))
    → Succeeds (m >>= f)
>>=-Succeeds m f (a, e) rest = rw e (rest a)

get-Succeeds : (s : List ℕ) (i : ℕ) → i < length s → Succeeds (get_elem? s i)
get-Succeeds s i h = (get_or s i 0, get_elem?-get_or s i 0 h)

read32-Succeeds : (s : List ℕ) (i : ℕ) → i + 4 ≤ length s → Succeeds (read32 s i)
unfolding read32
read32-Succeeds s i h = >>=-Succeeds _ _ (get-Succeeds s i (omega arith)) λ b₀.
    >>=-Succeeds _ _ (get-Succeeds s (i + 1) (omega arith)) λ b₁.
      >>=-Succeeds _ _ (get-Succeeds s (i + 2) (omega arith))
        λ b₂. >>=-Succeeds _ _ (get-Succeeds s (i + 3) (omega arith)) λ b₃. (_, refl)

-- The middle offset of a short key.
masked : (k : ℕ) → 2 ≤ k → k ≤ 6 → bit_and k 4 + 4 ≤ 2 * k
masked zero lo hi = absurd (omega arith)
masked (suc zero) lo hi = absurd (omega arith)
masked (suc (suc zero)) lo hi = omega arith
masked (suc (suc (suc zero))) lo hi = omega arith
masked (suc (suc (suc (suc zero)))) lo hi = omega arith
masked (suc (suc (suc (suc (suc zero))))) lo hi = omega arith
masked (suc (suc (suc (suc (suc (suc zero)))))) lo hi = omega arith
masked (suc (suc (suc (suc (suc (suc (suc k))))))) lo hi = absurd (omega arith)

len5to12-Succeeds : (s : List ℕ) → 5 ≤ length s → length s ≤ 12 → Succeeds (hash32_len5to12 s)
unfolding hash32_len5to12
len5to12-Succeeds s lo hi = >>=-Succeeds _ _ (read32-Succeeds s 0 (omega arith)) λ a.
    >>=-Succeeds _ _ (read32-Succeeds s (length s - 4) (omega arith)) λ b.
      >>=-Succeeds _ _
        (read32-Succeeds s (bit_and (length s / 2) 4)
          (omega (arith, masked (length s / 2) (omega arith) (omega arith))))
        λ c. (_, refl)

len13to24-Succeeds : (s : List ℕ) → 13 ≤ length s → Succeeds (hash32_len13to24 s)
unfolding hash32_len13to24
len13to24-Succeeds s lo = >>=-Succeeds _ _ (read32-Succeeds s (length s / 2 - 4) (omega arith)) λ a.
    >>=-Succeeds _ _ (read32-Succeeds s 4 (omega arith)) λ b.
      >>=-Succeeds _ _ (read32-Succeeds s (length s - 8) (omega arith)) λ c.
        >>=-Succeeds _ _ (read32-Succeeds s (length s / 2) (omega arith)) λ d.
          >>=-Succeeds _ _ (read32-Succeeds s 0 (omega arith))
            λ e. >>=-Succeeds _ _ (read32-Succeeds s (length s - 4) (omega arith)) λ f. (_, refl)

tail-Succeeds : (s : List ℕ) → 20 ≤ length s → Succeeds (mix_tail s)
unfolding mix_tail
tail-Succeeds s lo = >>=-Succeeds _ _ (read32-Succeeds s (length s - 4) (omega arith)) λ r₀.
    >>=-Succeeds _ _ (read32-Succeeds s (length s - 8) (omega arith)) λ r₁.
      >>=-Succeeds _ _ (read32-Succeeds s (length s - 16) (omega arith)) λ r₂.
        >>=-Succeeds _ _ (read32-Succeeds s (length s - 12) (omega arith))
          λ r₃. >>=-Succeeds _ _ (read32-Succeeds s (length s - 20) (omega arith)) λ r₄. (_, refl)

block-Succeeds : (s : List ℕ) (i : ℕ) (m : Mix) → i + 20 ≤ length s → Succeeds (mix_block s i m)
unfolding mix_block
block-Succeeds s i m h = >>=-Succeeds _ _ (read32-Succeeds s i (omega arith)) λ r₀.
    >>=-Succeeds _ _ (read32-Succeeds s (i + 4) (omega arith)) λ a1.
      >>=-Succeeds _ _ (read32-Succeeds s (i + 8) (omega arith)) λ r₂.
        >>=-Succeeds _ _ (read32-Succeeds s (i + 12) (omega arith))
          λ r₃. >>=-Succeeds _ _ (read32-Succeeds s (i + 16) (omega arith)) λ a4. (_, refl)

blocks-Succeeds :
    (s : List ℕ) (iters i : ℕ) (m : Mix)
    → i + 20 * iters ≤ length s
    → Succeeds (mix_blocks s iters i m)
unfolding mix_blocks
blocks-Succeeds s zero i m h = (m, refl)
blocks-Succeeds s (suc iters) i m h =
    >>=-Succeeds _ _ (block-Succeeds s i m (omega arith))
      λ m'. blocks-Succeeds s iters (i + 20) m' (omega arith)

-- Every key has a hash: each read of four bytes lies inside the key, on every branch and in every
-- turn of the loop.
pub city_hash32-Succeeds : (s : List ℕ) → Succeeds (city_hash32 s)
unfolding city_hash32
city_hash32-Succeeds s = elim (Bool-cases (leb (length s) 4)) [
  | inl e ↦ rw e (_, refl)
  | inr e ↦ elim (Bool-cases (leb (length s) 12)) [
    | inl e' ↦ rw (e, e') (len5to12-Succeeds s (ground arith) (ground arith))
    | inr e' ↦ elim (Bool-cases (leb (length s) 24)) [
      | inl e'' ↦ rw (e, e', e'') (len13to24-Succeeds s (ground arith))
      | inr e'' ↦
          let long : 25 ≤ length s = ground arith in
          rw (e, e', e'')
            (>>=-Succeeds _ _ (tail-Succeeds s (omega arith)) λ m.
              >>=-Succeeds _ _ (blocks-Succeeds s ((length s - 1) / 20) 0 m (omega arith))
                λ m'. (_, refl))
    ]
  ]
]
