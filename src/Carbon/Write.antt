-- ===== src/Carbon/Write.antt =====
-- `write_in_full` of src/utils.h.
use brubeck.Prelude.{
  ℕ, zero, suc, ◌+◌, ◌-◌, ◌≤◌, ◌<◌, ◌≡◌, List, [], ◌∷◌, Option, none, some, arith,
}
use brubeck.Carbon.{Written, wrote, interrupted, failed, Outcome, total, write_error, write_in_full}

-- A write reports at most what it was asked for; the count goes down by it.
abbrev pub IsHonest : List Written → ℕ → Type 0
IsHonest [] count = Unit
IsHonest (wrote n ∷ answers) count = (n ≤ count) × IsHonest answers (count - n)
IsHonest (interrupted ∷ answers) count = IsHonest answers count
IsHonest (failed ∷ answers) count = Unit

-- The bytes that the answers come to.
abbrev pub moved : List Written → ℕ
moved [] = 0
moved (wrote n ∷ answers) = n + moved answers
moved (interrupted ∷ answers) = moved answers
moved (failed ∷ answers) = moved answers

-- `n` bytes are the outcome, if they were asked for; the loop waits only while bytes are missing.
abbrev pub Completes : List Written → ℕ → ℕ → Option (Outcome × List Written) → Type 0
Completes answers count sum none = moved answers < count
Completes answers count sum (some (total n, rest)) = n ≡ sum + count
Completes answers count sum (some (write_error, rest)) = Unit

after_write :
    (answers : List Written) (n count sum : ℕ) (r : Option (Outcome × List Written))
    → suc n ≤ count
    → Completes answers (count - suc n) (sum + suc n) r
    → Completes (wrote (suc n) ∷ answers) count sum r
after_write answers n count sum none le h = omega arith
after_write answers n count sum (some (total k, rest)) le h = omega arith
after_write answers n count sum (some (write_error, rest)) le h = tt

pub write_in_full-Completes :
    (answers : List Written) (count sum : ℕ)
    → IsHonest answers count
    → Completes answers count sum (write_in_full answers count sum)
unfolding write_in_full
write_in_full-Completes answers zero sum h = omega arith
write_in_full-Completes [] (suc count) sum h = omega arith
write_in_full-Completes (interrupted ∷ answers) (suc count) sum h =
    same (write_in_full answers (suc count) sum) (write_in_full-Completes answers (suc count) sum h)
  where
    same :
        (r : Option (Outcome × List Written))
        → Completes answers (suc count) sum r
        → Completes (interrupted ∷ answers) (suc count) sum r
    same none h = h
    same (some (total n, rest)) h = h
    same (some (write_error, rest)) h = h
write_in_full-Completes (failed ∷ answers) (suc count) sum h = tt
write_in_full-Completes (wrote zero ∷ answers) (suc count) sum h = tt
write_in_full-Completes (wrote (suc n) ∷ answers) (suc count) sum (le, h) =
    after_write answers n (suc count) sum (write_in_full answers (suc count - suc n) (sum + suc n))
      le (write_in_full-Completes answers (suc count - suc n) (sum + suc n) h)
