-- ===== src/Bloom/Tests.antt =====
-- The filters at concrete tokens.
use brubeck.Prelude.{◌≡◌, refl, arith, some, Bool, true, false, Option, none, ◌>>=◌}
use brubeck.Bloom.{
  Multibloom, multibloom_check, multibloom_reset, multibloom_new, check_from, probe, position,
  test_bit, or_bit,
}
use brubeck.Bloom.Filters.{Checked, bits_of, multibloom_check-Checked, multibloom_new-IsValid}

abbrev two_filters : Multibloom
two_filters = multibloom_new 2 20 3

abbrev first_seen : Option Multibloom → Option Bool
first_seen none = none
first_seen (some bloom) = do (seen, _) ← multibloom_check bloom 1 7 100; some seen

-- A token is new, then seen, and new again after a reset.
seen_again :
    ((do (_, bloom) ← multibloom_check two_filters 1 7 100; first_seen (some bloom)) ≡ some true)
    × (first_seen (some two_filters) ≡ some false)
    × ((do (_, bloom) ← multibloom_check two_filters 1 7 100; first_seen (multibloom_reset bloom 1))
        ≡ some false)
unfolding multibloom_check multibloom_reset multibloom_new check_from probe position test_bit or_bit
seen_again = (refl, refl, refl)

multibloom_check-Checked_example :
    Checked two_filters 1 (bits_of two_filters 7 100) (multibloom_check two_filters 1 7 100)
unfolding multibloom_new
multibloom_check-Checked_example =
    multibloom_check-Checked two_filters 1 7 100 (multibloom_new-IsValid 2 20 3 (omega arith))
      (omega arith)
