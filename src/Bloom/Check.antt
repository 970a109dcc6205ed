-- ===== src/Bloom/Check.antt =====
-- `multibloom_check` of src/bloom.c as test and insert on a set of bits.
use brubeck.Prelude.{
  ℕ, zero, suc, ◌+◌, ◌*◌, ◌/◌, ◌%◌, ◌≤◌, ◌<◌, ◌≡◌, refl, ap, ◌∙◌, List, [], ◌∷◌, Option, none, some,
  Bool, true, false, ◌&&◌, ◌||◌, ◌==◌, ◌>>=◌, arith, length, get_or, set, length-set,
  get_elem?-get_or, get_or-set, Bool-cases, ◌⊎◌, inl, inr,
}
use brubeck.Bloom.{test_bit, or_bit, position, probe, check_from}

test_bit-or_bit : (c k j : ℕ) → test_bit (or_bit c k) j ≡ ((k == j) || test_bit c j)
unfolding test_bit or_bit
test_bit-or_bit c zero zero = ground arith
test_bit-or_bit c zero (suc j) =
    let half : (c / 2 * 2 + 1) / 2 ≡ c / 2 = omega arith in
    ap (λ n. test_bit n j) half ∙ ground arith
test_bit-or_bit c (suc k) zero = ground arith
test_bit-or_bit c (suc k) (suc j) =
    let half : (c % 2 + or_bit (c / 2) k * 2) / 2 ≡ or_bit (c / 2) k = omega arith in
    ap (λ n. test_bit n j) half ∙ test_bit-or_bit (c / 2) k j ∙ ground arith

-- The bit of that number is set.
abbrev pub has : List ℕ → ℕ → Bool
has filter y = test_bit (get_or filter (y / 8) 0) (y % 8)

-- Setting a bit of the filter sets that bit only.
has-set :
    (filter : List ℕ) (x y : ℕ)
    → x / 8 < length filter
    → has (set filter (x / 8) (or_bit (get_or filter (x / 8) 0) (x % 8))) y
      ≡ ((x == y) || has filter y)
has-set filter x y h =
    let c = get_or filter (x / 8) 0 in
    ap (λ v. test_bit v (y % 8)) (get_or-set filter (x / 8) (y / 8) (or_bit c (x % 8)) 0 h)
    ∙ ground (arith, test_bit-or_bit c (x % 8) (y % 8))

abbrev pub positions : ℕ → ℕ → ℕ → ℕ → ℕ → List ℕ
positions bits a b zero i = []
positions bits a b (suc n) i = position bits a b i ∷ positions bits a b n (suc i)

abbrev pub member : ℕ → List ℕ → Bool
member y [] = false
member y (x ∷ xs) = (x == y) || member y xs

abbrev pub has_all : List ℕ → List ℕ → Bool
has_all filter [] = true
has_all filter (x ∷ xs) = has filter x && has_all filter xs

-- The filter after the positions were probed, and how many of them were there.
abbrev pub Marks : List ℕ → ℕ → List ℕ → Option (ℕ × List ℕ) → Type 0
Marks filter hits ps none = ⊥
Marks filter hits ps (some (hits', filter')) =
    (length filter' ≡ length filter)
    × ((y : ℕ) → has filter' y ≡ (member y ps || has filter y))
    × (hits' ≤ hits + length ps)
    × ((hits' == hits + length ps) ≡ has_all filter ps)

probe-Marks :
    (filter : List ℕ) (x : ℕ) → x / 8 < length filter → Marks filter 0 (x ∷ []) (probe filter x)
unfolding probe
probe-Marks filter x h =
    let c = or_bit (get_or filter (x / 8) 0) (x % 8) in
    rw (get_elem?-get_or filter (x / 8) 0 h)
      (ground (arith, λ (y : ℕ). has-set filter x y h, length-set filter (x / 8) c))

pub has_all-ext :
    (filter filter' ps : List ℕ)
    → ((y : ℕ) → has filter' y ≡ has filter y)
    → has_all filter' ps ≡ has_all filter ps
has_all-ext filter filter' [] same = refl
has_all-ext filter filter' (p ∷ ps) same = rw (same p, has_all-ext filter filter' ps same) refl

-- A bit that is there already: no bit changes.
has-hit :
    (filter filter' : List ℕ) (x : ℕ)
    → ((y : ℕ) → has filter' y ≡ (member y (x ∷ []) || has filter y))
    → has filter x ≡ true
    → (y : ℕ) → has filter' y ≡ has filter y
has-hit filter filter' x b t y = ground (arith, b y)

-- The turns after a hit, and those after a miss.
join :
    (filter filter' ps : List ℕ) (x hits hit : ℕ) (r : Option (ℕ × List ℕ))
    → Marks filter 0 (x ∷ []) (some (hit, filter'))
    → Marks filter' (hits + hit) ps r
    → Marks filter hits (x ∷ ps) r
join filter filter' ps x hits hit none m k = k
join filter filter' ps x hits hit (some (hits', filter'')) (l, b, le, e) (l', b', le', e') = (
  omega (arith, l, l'),
  λ y. ground (arith, b y, b' y),
  omega (arith, le, le'),
  count (Bool-cases (has filter x)),
)
  where
    count :
        (has filter x ≡ true) ⊎ (has filter x ≡ false)
        → (hits' == hits + length (x ∷ ps)) ≡ has_all filter (x ∷ ps)
    count (inl t) =
        let same = has_all-ext filter filter' ps (has-hit filter filter' x b t) in
        ground (arith, le, e, e', same)
    count (inr t) = ground (arith, le, le', e)

chain :
    (filter ps : List ℕ) (x hits : ℕ) (r : Option (ℕ × List ℕ))
    (k : ℕ → List ℕ → Option (ℕ × List ℕ))
    → Marks filter 0 (x ∷ []) r
    → ((hit : ℕ) (filter' : List ℕ)
        → length filter' ≡ length filter
        → Marks filter' (hits + hit) ps (k hit filter'))
    → Marks filter hits (x ∷ ps) (r >>= λ (hit, filter'). k hit filter')
chain filter ps x hits none k m rest = m
chain filter ps x hits (some (hit, filter')) k m rest =
    let (l, _, _, _) = m in join filter filter' ps x hits hit (k hit filter') m (rest hit filter' l)

position_lt : (bits a b i : ℕ) → 0 < bits → position bits a b i < bits
unfolding position
position_lt bits a b i h = omega arith

pub check_from-Marks :
    (bits a b n i hits : ℕ) (filter : List ℕ)
    → 0 < bits
    → bits ≤ 8 * length filter
    → Marks filter hits (positions bits a b n i) (check_from bits a b n i hits filter)
unfolding check_from
check_from-Marks bits a b zero i hits filter pos fits = (refl, λ y. refl, omega arith, ground arith)
check_from-Marks bits a b (suc n) i hits filter pos fits =
    let test : (bits == 0) ≡ false = ground arith in
    let x = position bits a b i in
    rw test (
      chain filter (positions bits a b n (suc i)) x hits (probe filter x)
        (λ hit filter'. check_from bits a b n (suc i) (hits + hit) filter')
        (probe-Marks filter x (omega (arith, position_lt bits a b i pos)))
        (λ hit filter' l.
          check_from-Marks bits a b n (suc i) (hits + hit) filter' pos (omega (arith, l))))

pub has_all_mono :
    (filter filter' ps : List ℕ)
    → ((y : ℕ) → has filter y ≡ true → has filter' y ≡ true)
    → has_all filter ps ≡ true
    → has_all filter' ps ≡ true
has_all_mono filter filter' [] more all = refl
has_all_mono filter filter' (p ∷ ps) more all =
    let head : has filter p ≡ true = ground arith in
    let tail : has_all filter ps ≡ true = ground arith in
    rw (more p head, has_all_mono filter filter' ps more tail) refl

pub has_all-member :
    (filter ps : List ℕ)
    → ((y : ℕ) → member y ps ≡ true → has filter y ≡ true)
    → has_all filter ps ≡ true
has_all-member filter [] all = refl
has_all-member filter (p ∷ ps) all =
    let head : member p (p ∷ ps) ≡ true = ground arith in
    let rest : (y : ℕ) → member y ps ≡ true → has filter y ≡ true = λ y m. all y (ground arith) in
    rw (all p head, has_all-member filter ps rest) refl
