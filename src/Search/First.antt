-- ===== src/Search/First.antt =====
-- `find_substr` of src/utils.c finds the first occurrence.
use mathlib.Core.Path.{subst}
use brubeck.Prelude.{
  ℕ, zero, suc, ◌+◌, ◌≤◌, ◌<◌, ◌≡◌, refl, List, [], ◌∷◌, Option, none, some, true, inl, inr, arith,
  ◌==◌, ltb, length, drop, starts_with, Bool-cases,
}
use brubeck.Search.{find_from, find_substr}

-- The text stands at that offset, within the bytes that count.
abbrev pub Occurs : List ℕ → List ℕ → ℕ → ℕ → Type 0
Occurs s find slen p = (starts_with (drop p s) find ≡ true) × (p + length find ≤ slen)

abbrev pub IsFirst : List ℕ → List ℕ → ℕ → Option ℕ → Type 0
IsFirst s find slen none = (p : ℕ) → Occurs s find slen p → ⊥
IsFirst s find slen (some p) = Occurs s find slen p × ((q : ℕ) → q < p → Occurs s find slen q → ⊥)

-- The same, for offsets that are counted from somewhere else.
abbrev FirstFrom : ℕ → List ℕ → List ℕ → ℕ → Option ℕ → Type 0
FirstFrom offset s find slen none = (p : ℕ) → Occurs s find slen p → ⊥
FirstFrom offset s find slen (some r) =
    (p : ℕ) × (r ≡ offset + p) × Occurs s find slen p × ((q : ℕ) → q < p → Occurs s find slen q → ⊥)

-- Nothing stands at the first byte: what is found behind it is found.
later :
    (offset sc : ℕ) (s find : List ℕ) (slen : ℕ) (r : Option ℕ)
    → (Occurs (sc ∷ s) find (suc slen) 0 → ⊥)
    → 0 < length find
    → FirstFrom (suc offset) s find slen r
    → FirstFrom offset (sc ∷ s) find (suc slen) r
later offset sc s find slen none here pos f = go
  where
    go : (p : ℕ) → Occurs (sc ∷ s) find (suc slen) p → ⊥
    go zero o = here o
    go (suc p) (e, h) = f p (e, omega arith)
later offset sc s find slen (some r) here pos (p, e, (at, fits), before) =
    (suc p, omega arith, (at, omega arith), go)
  where
    go : (q : ℕ) → q < suc p → Occurs (sc ∷ s) find (suc slen) q → ⊥
    go zero h o = here o
    go (suc q) h (e', h') = before q (omega arith) (e', omega arith)

find_from-First :
    (c : ℕ) (find : List ℕ) (offset : ℕ) (s : List ℕ) (slen : ℕ)
    → FirstFrom offset s (c ∷ find) slen (find_from c find offset s slen)
unfolding find_from
find_from-First c find offset [] slen = nothing
  where
    nothing : (p : ℕ) → Occurs [] (c ∷ find) slen p → ⊥
    nothing zero (e, h) = absurd cc
    nothing (suc p) (e, h) = absurd cc
find_from-First c find offset (sc ∷ s) zero = λ p (e, h). absurd (omega arith)
find_from-First c find offset (sc ∷ s) (suc slen) =
    let rest = find_from-First c find (suc offset) s slen in
    let behind = later offset sc s (c ∷ find) slen (find_from c find (suc offset) s slen) in
    elim (Bool-cases (sc == c)) [
      | inr other ↦ rw other (behind (λ (e, h). ground (arith, e)) (omega arith) rest)
      | inl same ↦ elim (Bool-cases (ltb slen (length find))) [
        | inl short ↦ rw (same, short) (λ p (e, h). absurd (ground (arith, short)))
        | inr long ↦ elim (Bool-cases (starts_with s find)) [
          | inl found ↦
              rw (same, long, found)
                (
                  0,
                  omega arith,
                  (ground arith, ground (arith, long)),
                  λ q h o. absurd (omega arith),
                )
          | inr differs ↦
              rw (same, long, differs) (behind (λ (e, h). ground (arith, e)) (omega arith) rest)
        ]
      ]
    ]

-- The result is the first offset at which the text stands within the first `slen` bytes, and a null
-- pointer exactly if there is none.
pub find_substr-IsFirst :
    (s find : List ℕ) (slen : ℕ) → IsFirst s find slen (find_substr s find slen)
unfolding find_substr
find_substr-IsFirst s [] slen = ((refl, omega arith), λ q h o. absurd (omega arith))
find_substr-IsFirst s (c ∷ find) slen =
    from_start (find_from c find 0 s slen) (find_from-First c find 0 s slen)
  where
    from_start : (r : Option ℕ) → FirstFrom 0 s (c ∷ find) slen r → IsFirst s (c ∷ find) slen r
    from_start none f = f
    from_start (some r) (p, e, at, before) =
        let same : p ≡ r = omega arith in
        subst (λ q. IsFirst s (c ∷ find) slen (some q)) same (at, before)
