-- ===== src/Search/Tests.antt =====
-- Searches in a text of which not all bytes count.
use brubeck.Prelude.{◌≡◌, refl, none, some, codes}
use brubeck.Search.{find_substr}
use brubeck.Search.First.{IsFirst, find_substr-IsFirst}

finds :
    (find_substr (codes "a/b//c") (codes "//") 6 ≡ some 3)
    × (find_substr (codes "a/b//c") (codes "//") 5 ≡ some 3)
    × (find_substr (codes "a/b//c") (codes "//") 4 ≡ none)
    × (find_substr (codes "a/b//c") (codes "x") 6 ≡ none)
    × (find_substr (codes "a/b//c") (codes "") 6 ≡ some 0)
unfolding find_substr
finds = (refl, refl, refl, refl, refl)

find_substr-IsFirst_example :
    IsFirst (codes "a/b//c") (codes "//") 6 (find_substr (codes "a/b//c") (codes "//") 6)
find_substr-IsFirst_example = find_substr-IsFirst (codes "a/b//c") (codes "//") 6
