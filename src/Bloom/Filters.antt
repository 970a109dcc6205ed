-- ===== src/Bloom/Filters.antt =====
-- The filters of src/bloom.c side by side: each is a set of bits, checked and reset alone.
use brubeck.Prelude.{
  ℕ, zero, suc, ◌+◌, ◌*◌, ◌/◌, ◌%◌, ◌≤◌, ◌<◌, ◌≡◌, ◌≢◌, refl, ap, ◌∙◌, List, [], Option, none, some,
  Bool, true, false, ◌||◌, ◌==◌, if◌then◌else◌, ◌>>=◌, arith, length, All, get_or, set, replicate,
  length-set, length-replicate, get_elem?-get_or, get_or-set, All-get_or, All-set,
}
use brubeck.Bloom.{
  Multibloom, test_bit, multibloom_check, multibloom_reset, multibloom_new, check_from,
}
use brubeck.Bloom.Check.{has, positions, member, has_all, Marks, check_from-Marks}

-- Every filter has the bytes that its bits need, and there is a bit.
pub record IsValid (bloom : Multibloom) : Type 0 where
  pub bits : 0 < bloom.bits
  pub fits : bloom.bits ≤ 8 * bloom.bytes
  pub even : All (λ filter. length filter ≡ bloom.bytes) bloom.filters

abbrev pub filter_of : Multibloom → ℕ → List ℕ
filter_of bloom f = get_or bloom.filters f []

-- The bit of that number in filter `f`.
abbrev pub holds : Multibloom → ℕ → ℕ → Bool
holds bloom f y = has (filter_of bloom f) y

-- The bits that stand for the two hashes of a token.
abbrev pub bits_of : Multibloom → ℕ → ℕ → List ℕ
bits_of bloom a b = positions bloom.bits a b bloom.hashes 0

abbrev pub holds_all : Multibloom → ℕ → List ℕ → Bool
holds_all bloom f ps = has_all (filter_of bloom f) ps

-- The same filters but for number `f`, and a valid set of filters.
pub record Keeps (f : ℕ) (bloom bloom' : Multibloom) : Type 0 where
  pub valid : IsValid bloom'
  pub bits : bloom'.bits ≡ bloom.bits
  pub hashes : bloom'.hashes ≡ bloom.hashes
  pub count : length bloom'.filters ≡ length bloom.filters
  pub others : (g : ℕ) → g ≢ f → filter_of bloom' g ≡ filter_of bloom g

abbrev pub Checked : Multibloom → ℕ → List ℕ → Option (Bool × Multibloom) → Type 0
Checked bloom f ps none = ⊥
Checked bloom f ps (some (seen, bloom')) =
    Keeps f bloom bloom'
    × (seen ≡ holds_all bloom f ps)
    × ((y : ℕ) → holds bloom' f y ≡ (member y ps || holds bloom f y))

abbrev pub Emptied : Multibloom → ℕ → Option Multibloom → Type 0
Emptied bloom f none = ⊥
Emptied bloom f (some bloom') = Keeps f bloom bloom' × ((y : ℕ) → holds bloom' f y ≡ false)

-- A valid filter in place of number `f`.
set-Keeps :
    (bloom : Multibloom) (f : ℕ) (filter : List ℕ)
    → IsValid bloom
    → f < length bloom.filters
    → length filter ≡ bloom.bytes
    → let bloom' = record bloom { filters = set bloom.filters f filter } in
      Keeps f bloom bloom' × (filter_of bloom' f ≡ filter)
set-Keeps bloom f filter ok h l =
    let same : (f == f) ≡ true = ground arith in
    let eq = get_or-set bloom.filters f f filter [] h in
    (
      record {
        valid = record {
          bits = ok.bits;
          fits = ok.fits;
          even = All-set _ bloom.filters f filter ok.even l;
        };
        bits = refl;
        hashes = refl;
        count = length-set bloom.filters f filter;
        others = λ g ne.
            let test : (f == g) ≡ false = ground arith in
            get_or-set bloom.filters f g filter [] h ∙ rw test refl;
      },
      eq ∙ rw same refl,
    )

length-positions : (bits a b n i : ℕ) → length (positions bits a b n i) ≡ n
length-positions bits a b zero i = refl
length-positions bits a b (suc n) i = ap suc (length-positions bits a b n (suc i))

-- What the loop has left is put in place of filter `f`.
replaced :
    (bloom : Multibloom) (f : ℕ) (ps : List ℕ) (r : Option (ℕ × List ℕ))
    → IsValid bloom
    → f < length bloom.filters
    → length ps ≡ bloom.hashes
    → Marks (filter_of bloom f) 0 ps r
    → Checked bloom f ps (
        r >>= λ (hits, filter').
        some (hits == bloom.hashes, record bloom { filters = set bloom.filters f filter' }))
replaced bloom f ps none ok h n m = m
replaced bloom f ps (some (hits, filter')) ok h n (l, b, le, e) =
    let even = All-get_or _ bloom.filters f [] ok.even h in
    let (keeps, at) = set-Keeps bloom f filter' ok h (l ∙ even) in
    (keeps, ap (λ k. hits == k) (omega (arith, n)) ∙ e, λ y. ap (λ xs. has xs y) at ∙ b y)

-- On valid filters a check does not fail and tells whether every bit of the token was set in filter
-- `f`; after it those bits are set, no other bit of filter `f` has changed, the other filters are
-- as they were, and the filters are valid.
pub multibloom_check-Checked :
    (bloom : Multibloom) (f a b : ℕ)
    → IsValid bloom
    → f < length bloom.filters
    → Checked bloom f (bits_of bloom a b) (multibloom_check bloom f a b)
unfolding multibloom_check
multibloom_check-Checked bloom f a b ok h =
    let filter = filter_of bloom f in
    let l = All-get_or _ bloom.filters f [] ok.even h in
    rw (get_elem?-get_or bloom.filters f [] h) (
      replaced bloom f (bits_of bloom a b) (check_from bloom.bits a b bloom.hashes 0 0 filter) ok h
        (length-positions bloom.bits a b bloom.hashes 0)
        (check_from-Marks bloom.bits a b bloom.hashes 0 0 filter ok.bits
          (omega (arith, l, ok.fits))))

test_bit-zero : (k : ℕ) → test_bit 0 k ≡ false
unfolding test_bit
test_bit-zero zero = refl
test_bit-zero (suc k) = test_bit-zero k

has-replicate : (n y : ℕ) → has (replicate n 0) y ≡ false
has-replicate n y = ap (λ c. test_bit c (y % 8)) (zeros n (y / 8)) ∙ test_bit-zero (y % 8)
  where
    zeros : (n i : ℕ) → get_or {A = ℕ} (replicate n 0) i 0 ≡ 0
    zeros zero i = refl
    zeros (suc n) zero = refl
    zeros (suc n) (suc i) = zeros n i

-- On valid filters a reset does not fail: it clears filter `f` and leaves the others as they were.
pub multibloom_reset-Emptied :
    (bloom : Multibloom) (f : ℕ)
    → IsValid bloom
    → f < length bloom.filters
    → Emptied bloom f (multibloom_reset bloom f)
unfolding multibloom_reset
multibloom_reset-Emptied bloom f ok h = rw (get_elem?-get_or bloom.filters f [] h) (
    let (keeps, at) =
      set-Keeps bloom f (replicate bloom.bytes 0) ok h (length-replicate bloom.bytes 0) in
    (keeps, λ y. ap (λ xs. has xs y) at ∙ has-replicate bloom.bytes y))

-- Filters that are made with at least one bit are valid.
pub multibloom_new-IsValid :
    (filters bits hashes : ℕ) → 0 < bits → IsValid (multibloom_new filters bits hashes)
unfolding multibloom_new
multibloom_new-IsValid filters bits hashes h = record {
  bits = h;
  fits = ground arith;
  even = evens filters;
}
  where
    bytes : ℕ
    bytes = if bits % 8 == 0 then bits / 8 else bits / 8 + 1

    evens :
        (n : ℕ) → All (λ filter. length filter ≡ bytes) (replicate n (replicate {A = ℕ} bytes 0))
    evens zero = tt
    evens (suc n) = (length-replicate bytes 0, evens n)
