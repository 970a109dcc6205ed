-- ===== src/Config.antt =====
-- The parts of src/server.c that load the configuration, but for the calls of the JSON library: a
-- backend or a sampler is given by the text of its "type", or `none` where it has none.
pub mod Slots
pub mod Name
mod Tests
use brubeck.Prelude.{
  ℕ, suc, ◌+◌, List, [], ◌∷◌, Option, none, some, Bool, false, ◌||◌, ◌==◌, ltb, if◌then◌else◌,
  codes, text_eq,
}

-- The text behind the last such byte, which is what `strrchr` finds.
unfoldable pub after_last : ℕ → List ℕ → Option (List ℕ)
after_last c [] = none
after_last c (x ∷ xs) = elim (after_last c xs) [
  | some rest ↦ some rest
  | none ↦ if x == c then some xs else none
]

-- The text in front of the last such byte, or the whole text.
unfoldable pub before_last : ℕ → List ℕ → List ℕ
unfolding after_last
before_last c [] = []
before_last c (x ∷ xs) = elim (after_last c xs) [
  | some _ ↦ x ∷ before_last c xs
  | none ↦ if x == c then [] else x ∷ before_last c xs
]

abbrev file_name : Option (List ℕ) → List ℕ → List ℕ
file_name none full_path = full_path
file_name (some name) full_path = name

unfoldable pub get_config_name : List ℕ → List ℕ
unfolding after_last before_last
get_config_name full_path = before_last b'.' (file_name (after_last b'/' full_path) full_path)

-- The length of the arrays `backends` and `samplers` of the server.
abbrev pub slots : ℕ
slots = 8

abbrev pub is_type : List ℕ → Option (List ℕ) → Bool
is_type name none = false
is_type name (some type) = text_eq type name

-- The number of active entries after a loop over such types; `none` is a write behind the end of the
-- array. An entry of another type is only logged.
unfoldable pub fill_slots : (Option (List ℕ) → Bool) → List (Option (List ℕ)) → ℕ → Option ℕ
fill_slots test [] active = some active
fill_slots test (type ∷ types) active =
    let next = fill_slots test types (suc active) in
    let same = fill_slots test types active in
    if test type then (if ltb active slots then next else none) else same

abbrev pub is_backend : Option (List ℕ) → Bool
is_backend type = is_type (codes "carbon") type

abbrev pub is_sampler : Option (List ℕ) → Bool
is_sampler type = is_type (codes "statsd") type || is_type (codes "statsd-secure") type

abbrev pub load_backends : List (Option (List ℕ)) → Option ℕ
load_backends backends = fill_slots is_backend backends 0

abbrev pub load_samplers : List (Option (List ℕ)) → Option ℕ
load_samplers samplers = fill_slots is_sampler samplers 0
