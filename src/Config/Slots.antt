-- ===== src/Config/Slots.antt =====
-- When the backends and samplers of a configuration of src/server.c fit into their arrays.
use brubeck.Prelude.{
  ℕ, suc, ◌+◌, ◌≤◌, ◌<◌, ◌≡◌, List, [], ◌∷◌, Option, none, some, Bool, arith, ltb, if◌then◌else◌,
  Bool-cases, inl, inr,
}
use mathlib.Core.Path.{subst}
use brubeck.Config.{slots, is_backend, is_sampler, fill_slots, load_backends, load_samplers}

-- The entries that pass a test.
abbrev pub count : (Option (List ℕ) → Bool) → List (Option (List ℕ)) → ℕ
count test [] = 0
count test (type ∷ types) = if test type then suc (count test types) else count test types

-- Either all the entries fit and are counted, or they are more than there are slots.
abbrev pub Fits : ℕ → Option ℕ → Type 0
Fits total none = slots < total
Fits total (some active) = (active ≡ total) × (total ≤ slots)

fill_slots-Fits :
    (test : Option (List ℕ) → Bool) (types : List (Option (List ℕ))) (active : ℕ)
    → active ≤ slots
    → Fits (active + count test types) (fill_slots test types active)
unfolding fill_slots
fill_slots-Fits test [] active h = omega arith
fill_slots-Fits test (type ∷ types) active h = elim (Bool-cases (test type)) [
  | inr other ↦ rw other (fill_slots-Fits test types active h)
  | inl known ↦ elim (Bool-cases (ltb active slots)) [
    | inl room ↦
        let fits : suc active ≤ slots = ground arith in
        rw (known, room)
          (subst (λ n. Fits n (fill_slots test types (suc active))) (omega arith)
            (fill_slots-Fits test types (suc active) fits))
    | inr full ↦ rw (known, full) (ground arith)
  ]
]

-- The loops over the backends and over the samplers of a configuration end with the number of the
-- entries of a known type, if these are at most eight; with more they write behind the end of their
-- array.
pub load-Fits :
    (backends samplers : List (Option (List ℕ)))
    → Fits (count is_backend backends) (load_backends backends)
      × Fits (count is_sampler samplers) (load_samplers samplers)
load-Fits backends samplers = (
  subst (λ n. Fits n (load_backends backends)) (omega arith)
      (fill_slots-Fits is_backend backends 0 (omega arith)),
  subst (λ n. Fits n (load_samplers samplers)) (omega arith)
      (fill_slots-Fits is_sampler samplers 0 (omega arith)),
)
