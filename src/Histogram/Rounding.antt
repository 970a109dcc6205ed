-- ===== src/Histogram/Rounding.antt =====
-- Rounding to single precision keeps the order, and so the ranks of `histo_percentile` in
-- src/histogram.c stay between 1 and the size, and rise with the percentile.
use brubeck.Prelude.{ℕ, zero, suc, ◌+◌, ◌*◌, ◌/◌, ◌%◌, ◌^◌, ◌≤◌, ◌<◌, ◌≡◌, arith}
use native.Mathlib.Nat.{mul-le-mul_right}
use native.Mathlib.Decide.{dec_lt}
use brubeck.Histogram.Percentile.{
  nearest, round_from, to_single, Rank, half, pc_75, pc_95, pc_98, pc_99, pc_999, single, irank,
}

-- Rounding does not pass a multiple of the unit, in either direction.
nearest-le : (u p c : ℕ) → 0 < u → p ≤ c * u → nearest u p ≤ c * u
unfolding nearest
nearest-le u p c h k = grind arith

le-nearest : (u p c : ℕ) → 0 < u → c * u ≤ p → c * u ≤ nearest u p
unfolding nearest
le-nearest u p c h k = grind arith

div_bounds : (u p : ℕ) → 0 < u → (p / u * u ≤ p) × (p < (p / u + 1) * u)
div_bounds u p h = grind arith

div_mono : (u p q : ℕ) → 0 < u → p ≤ q → p / u ≤ q / u
div_mono u p q h k = elim (dec_lt (q / u) (p / u)) [
  | yes more ↦
      let between : (q / u + 1) * u ≤ p / u * u = mul-le-mul_right u (omega arith) in
      absurd (omega (arith, between, (div_bounds u p h).0, (div_bounds u q h).1))
  | no less ↦ omega arith
]

-- Either the two quotients are the same, or a multiple of the unit lies between the two values.
nearest_mono_same : (u p q : ℕ) → 0 < u → p ≤ q → p / u ≡ q / u → nearest u p ≤ nearest u q
unfolding nearest
nearest_mono_same u p q h k e = rw (← e) (grind (arith, p_lem, q_lem))
  where
    p_lem : p / u * u + p % u ≡ p
    p_lem = grind arith

    q_lem : p / u * u + q % u ≡ q
    q_lem = rw e (grind arith)

nearest_mono : (u p q : ℕ) → 0 < u → p ≤ q → nearest u p ≤ nearest u q
nearest_mono u p q h k = elim (dec_lt (p / u) (q / u)) [
  | yes less ↦
      let between : (p / u + 1) * u ≤ q / u * u = mul-le-mul_right u (omega arith) in
      omega (
        arith,
        nearest-le u p (p / u + 1) h (omega (arith, div_bounds u p h)),
        le-nearest u q (q / u) h (div_bounds u q h).0,
        between,
      )
  | no more ↦ nearest_mono_same u p q h k (omega (arith, div_mono u p q h k))
]

-- The coarsest unit that `round_from` may come to.
abbrev top : ℕ → ℕ → ℕ
top zero u = u
top (suc f) u = top f (2 * u)

top_multiple : (f u : ℕ) → (k : ℕ) × (top f u ≡ k * u)
top_multiple zero u = (1, omega arith)
top_multiple (suc f) u = let (k, e) = top_multiple f (2 * u) in (2 * k, omega (arith, e))

-- A multiple of the coarsest unit is a multiple of every unit on the way.
as_multiple : (f u c : ℕ) → (k : ℕ) × (c * top f u ≡ k * u)
as_multiple f u c = let (k, e) = top_multiple f u in (c * k, rw e (grind arith))

round_from-le : (f u p c : ℕ) → 0 < u → p ≤ c * top f u → round_from f u p ≤ c * top f u
unfolding round_from
round_from-le zero u p c h k = nearest-le u p c h k
round_from-le (suc f) u p c h k =
    let (m, e) = as_multiple (suc f) u c in
    let fine : nearest u p ≤ c * top (suc f) u = rw e (nearest-le u p m h (rw e at k)) in
    ground (arith, round_from-le f (2 * u) p c (omega arith) k)

le-round_from : (f u p c : ℕ) → 0 < u → c * top f u ≤ p → c * top f u ≤ round_from f u p
unfolding round_from
le-round_from zero u p c h k = le-nearest u p c h k
le-round_from (suc f) u p c h k =
    let (m, e) = as_multiple (suc f) u c in
    let fine : c * top (suc f) u ≤ nearest u p = rw e (le-nearest u p m h (rw e at k)) in
    ground (arith, le-round_from f (2 * u) p c (omega arith) k)

round_from_mono :
    (f u p q c : ℕ) → 0 < u → 2 ^ 24 * u ≡ c * top f u → p ≤ q → round_from f u p ≤ round_from f u q
unfolding round_from
round_from_mono zero u p q c h e k = nearest_mono u p q h k
round_from_mono (suc f) u p q c h e k =
    let next : 2 ^ 24 * (2 * u) ≡ (2 * c) * top f (2 * u) = omega (arith, e) in
    let above : 2 ^ 24 * u ≤ q → 2 ^ 24 * u ≤ round_from f (2 * u) q =
      rw e (le-round_from f (2 * u) q c (omega arith)) in
    ground (
      arith,
      nearest_mono u p q h k,
      nearest-le u p (2 ^ 24) h,
      above,
      round_from_mono f (2 * u) p q (2 * c) (omega arith) next k,
    )

to_single-le : (p c : ℕ) → p ≤ c * 2 ^ 17 → to_single p ≤ c * 2 ^ 17
unfolding to_single
to_single-le p c h = round_from-le 17 1 p c (omega arith) h

le-to_single : (p c : ℕ) → c * 2 ^ 17 ≤ p → c * 2 ^ 17 ≤ to_single p
unfolding to_single
le-to_single p c h = le-round_from 17 1 p c (omega arith) h

to_single_mono : (p q : ℕ) → p ≤ q → to_single p ≤ to_single q
unfolding to_single
to_single_mono p q h = round_from_mono 17 1 p q 128 (omega arith) (omega arith) h

single_bounds : (rank : Rank) → (2 ^ 23 ≤ single rank) × (single rank ≤ 2 ^ 24)
unfolding single
single_bounds half = omega arith
single_bounds pc_75 = omega arith
single_bounds pc_95 = omega arith
single_bounds pc_98 = omega arith
single_bounds pc_99 = omega arith
single_bounds pc_999 = omega arith

-- In a histogram that is not empty every rank is at least 1 and at most the size, so that
-- `values[irank - 1]` neither wraps nor reads past the values.
pub irank_bounds :
    (rank : Rank) (size : ℕ) → 0 < size → (1 ≤ irank rank size) × (irank rank size ≤ size)
unfolding irank
irank_bounds rank size h =
    let m = single rank in
    let product = m * size in
    let rounded = to_single product in
    let low : 64 * 2 ^ 17 ≤ product = grind (arith, single_bounds rank) in
    let high : product ≤ (128 * size) * 2 ^ 17 =
      omega (arith, mul-le-mul_right size (single_bounds rank).1) in
    let low' = le-to_single product 64 low in
    let high' = to_single-le product (128 * size) high in
    omega (
      arith,
      le-to_single (rounded + 2 ^ 23) 128 (omega arith),
      to_single-le (rounded + 2 ^ 23) (128 * size + 64) (omega arith),
    )

-- A larger rank has an index that is not smaller.
pub irank_mono : (r q : Rank) (size : ℕ) → single r ≤ single q → irank r size ≤ irank q size
unfolding irank
irank_mono r q size h =
    let first = to_single_mono _ _ (mul-le-mul_right size h) in
    div_mono (2 ^ 24) _ _ (omega arith) (
      to_single_mono (to_single (single r * size) + 2 ^ 23) (to_single (single q * size) + 2 ^ 23)
        (omega arith))
