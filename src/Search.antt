-- ===== src/Search.antt =====
-- `find_substr` of src/utils.c. A text is the list of its bytes in front of the zero byte; the result
-- is an offset into it, or `none` for a null pointer.
pub mod First
mod Tests
use brubeck.Prelude.{
  ℕ, zero, suc, ◌-◌, List, [], ◌∷◌, Option, none, some, ◌==◌, ltb, if◌then◌else◌, length,
  starts_with,
}

-- The two loops, from an offset on: the bytes of `s` that are left, how many of them count, and the
-- text behind the byte that the inner loop looks for.
unfoldable pub find_from : ℕ → List ℕ → ℕ → List ℕ → ℕ → Option ℕ
find_from c find offset [] slen = none
find_from c find offset (sc ∷ s) zero = none
find_from c find offset (sc ∷ s) (suc slen) =
    let rest = find_from c find (suc offset) s slen in
    if sc == c
    then (if ltb slen (length find) then none else if starts_with s find then some offset else rest)
    else rest

unfoldable pub find_substr : List ℕ → List ℕ → ℕ → Option ℕ
unfolding find_from
find_substr s [] slen = some 0
find_substr s (c ∷ find) slen = find_from c find 0 s slen
