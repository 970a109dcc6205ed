-- ===== src/Backend/Tests.antt =====
-- Two threads that register metrics, their steps interleaved.
use brubeck.Prelude.{ℕ, ◌≡◌, refl, List, [], ◌∷◌, ◌++◌, none, some}
use brubeck.Backend.{idle, Backend, step_from, register_step, run}
use brubeck.Backend.Queue.{Holds, run-Holds}

abbrev start : Backend
start = record { queue = none; next = λ m. none; pc = λ m. idle }

start-Holds : Holds start []
start-Holds = record {
  chain = refl;
  inside = tt;
  every = λ m e. absurd cc;
  distinct = tt;
  ready = λ m n e. absurd cc;
}

-- Both read the empty queue, the exchange of the second fails, and it starts again.
abbrev steps : List ℕ
steps = 1 ∷ 2 ∷ 1 ∷ 2 ∷ 1 ∷ 2 ∷ 2 ∷ 2 ∷ 2 ∷ []

both_registered :
    ((run steps start).queue ≡ some 2)
    × ((run steps start).next 2 ≡ some 1)
    × ((run steps start).next 1 ≡ none)
unfolding run register_step step_from
both_registered = (refl, refl, refl)

run-Holds_example : (ys : List ℕ) × Holds (run steps start) (ys ++ [])
run-Holds_example = run-Holds steps start [] start-Holds
