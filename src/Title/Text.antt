-- ===== src/Title/Text.antt =====
-- What src/setproctitle.c leaves in the memory of the arguments.
use mathlib.Core.Path.{subst}
use brubeck.Prelude.{
  ℕ, suc, ◌+◌, ◌-◌, ◌≤◌, ◌<◌, ◌≡◌, ◌≢◌, refl, List, [], ◌∷◌, ◌++◌, Option, none, some, true, false,
  inl, inr, arith, ltb, ◌==◌, if◌then◌else◌, ◌>>=◌, codes, length, take, drop, replicate, All,
  All-take, Bool-cases, length-append, length-take, length-replicate, length-drop, take_of_le, ◌⊎◌,
  sym,
}
use brubeck.Title.{buffer_size, strcpy, titled, clipped, setproctitle}

-- The text in an array, up to its zero byte; `none` if there is no such byte.
abbrev pub c_string : List ℕ → Option (List ℕ)
c_string [] = none
c_string (c ∷ cs) = if c == 0 then some [] else (c_string cs >>= λ s. some (c ∷ s))

abbrev pub HasNoZero : List ℕ → Type 0
HasNoZero = All (λ c. c ≢ 0)

c_string-append : (s rest : List ℕ) → HasNoZero s → c_string (s ++ (0 ∷ rest)) ≡ some s
c_string-append [] rest h = refl
c_string-append (c ∷ s) rest (h, hs) =
    let no : (c == 0) ≡ false = ground arith in rw (no, c_string-append s rest hs) refl

All-append : {A : Type 0} (P : A → Type 0) (xs ys : List A) → All P xs → All P ys → All P (xs ++ ys)
All-append P [] ys p q = q
All-append P (x ∷ xs) ys (p, ps) q = (p, All-append P xs ys ps q)

-- The area has its length, and the text in it is this.
abbrev pub Shows : List ℕ → List ℕ → Option (Option (List ℕ)) → Type 0
Shows area text none = ⊥
Shows area text (some none) = ⊥
Shows area text (some (some area')) = (length area' ≡ length area) × (c_string area' ≡ some text)

copied :
    (area buf : List ℕ)
    → length buf < length area
    → HasNoZero buf
    → Shows area buf (do area' ← strcpy (replicate (length area) 0) buf; some (some area'))
unfolding strcpy
copied area buf h k =
    let cleared : List ℕ = replicate (length area) 0 in
    let size : length cleared ≡ length area = length-replicate {A = ℕ} (length area) 0 in
    let inside : ltb (length buf) (length cleared) ≡ true = ground (arith, size) in
    let rest = drop (suc (length buf)) cleared in
    rw inside (
      omega (arith, length-append buf (0 ∷ rest), length-drop (suc (length buf)) cleared, size),
      c_string-append buf rest k,
    )

-- The title that fits the area, which keeps two bytes free.
abbrev pub shown : List ℕ → List ℕ → List ℕ → List ℕ
shown area prog txt = take (length area - 2) (titled prog txt)

titled-HasNoZero :
    (prog txt : List ℕ) → HasNoZero prog → HasNoZero txt → HasNoZero (titled prog txt)
titled-HasNoZero prog txt h k =
    All-append (λ c. c ≢ 0) prog (codes " -- " ++ txt) h
      (omega arith, (omega arith, (omega arith, (omega arith, k))))

-- For an area of two bytes or more and texts without a zero byte: no write lies outside of the area or of
-- the buffer. If the two texts fit the buffer, the area has the program's name, " -- " and the text
-- in it, cut to two bytes less than its length, and ends there; if they do not, nothing changes.
pub setproctitle-Shows :
    (area prog txt : List ℕ)
    → 2 ≤ length area
    → HasNoZero prog
    → HasNoZero txt
    → (length prog + length txt + 5 ≤ buffer_size
        → Shows area (shown area prog txt) (setproctitle (some area) prog txt))
      × (buffer_size < length prog + length txt + 5
          → setproctitle (some area) prog txt ≡ some (some area))
unfolding setproctitle clipped
setproctitle-Shows area prog txt long h k = (
  λ fits.
      let room : ltb buffer_size (length prog + length txt + 5) ≡ false = ground arith in
      rw room (cut (Bool-cases (ltb (length area - 2) (length (titled prog txt))))),
  λ over.
      let full : ltb buffer_size (length prog + length txt + 5) ≡ true = ground arith in
      rw full refl,
)
  where
    text : List ℕ
    text = titled prog txt

    cut :
        (ltb (length area - 2) (length text) ≡ true) ⊎ (ltb (length area - 2) (length text) ≡ false)
        → Shows area (shown area prog txt) (do
          buf ← clipped (length area) text
          area' ← strcpy (replicate (length area) 0) buf
          some (some area'))
    cut (inl longer) =
        let enough : ltb (length area) 2 ≡ false = ground arith in
        rw (longer, enough)
          (copied area (shown area prog txt) (omega (arith, length-take (length area - 2) text))
            (All-take _ (length area - 2) text (titled-HasNoZero prog txt h k)))
    cut (inr fits) =
        let short : length text ≤ length area - 2 = ground (arith, fits) in
        rw fits (
          subst
            (λ t.
              Shows area t (do area' ← strcpy (replicate (length area) 0) text; some (some area')))
            (sym (take_of_le (length area - 2) text short))
            (copied area text (omega arith) (titled-HasNoZero prog txt h k)))
