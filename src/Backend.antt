-- ===== src/Backend.antt =====
-- `brubeck_backend_register_metric` of src/backend.c, in which many threads put metrics into one
-- queue. A metric is a number, and the thread that registers it goes by that number; a pointer is
-- `none` if it is null. One step is one access to what the threads share.
pub mod Queue
mod Tests
use brubeck.Prelude.{ℕ, List, [], ◌∷◌, Option, none, some, Bool, true, false, ◌==◌, if◌then◌else◌}

-- Where a thread is: before it reads the queue, with what it read, with that in the `next` of its
-- metric, and after its metric was put in.
pub data Pc : Type 0 where
  idle registered : Pc
  loaded linked : Option ℕ → Pc

pub record Backend : Type 0 where
  pub queue : Option ℕ
  pub next : ℕ → Option ℕ
  pub pc : ℕ → Pc

abbrev pub same_pointer : Option ℕ → Option ℕ → Bool
same_pointer none none = true
same_pointer none (some b) = false
same_pointer (some a) none = false
same_pointer (some a) (some b) = a == b

abbrev pub store {ℓ} : {A : Type ℓ} → (ℕ → A) → ℕ → A → ℕ → A
store f m v x = if x == m then v else f x

-- The next step of the thread that registers that metric.
unfoldable pub step_from : Pc → ℕ → Backend → Backend
step_from idle m b = record b { pc = store b.pc m (loaded b.queue) }
step_from (loaded n) m b = record b { next = store b.next m n; pc = store b.pc m (linked n) }
step_from (linked n) m b =
    if same_pointer b.queue n
    then record b { queue = some m; pc = store b.pc m registered }
    else record b { pc = store b.pc m idle }
step_from registered m b = b

unfoldable pub register_step : ℕ → Backend → Backend
register_step m b = step_from (b.pc m) m b

-- The threads in the order in which they take their steps.
unfoldable pub run : List ℕ → Backend → Backend
run [] b = b
run (m ∷ ms) b = run ms (register_step m b)
