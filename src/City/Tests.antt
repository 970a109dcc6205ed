-- ===== src/City/Tests.antt =====
-- The hash of concrete keys.
use brubeck.Prelude.{◌≡◌, refl, [], some, codes, List, ℕ}
use brubeck.City.Reads.{Succeeds, city_hash32-Succeeds}
use brubeck.City.{city_hash32}

empty_hash : city_hash32 [] ≡ some 0xdc56d17a
unfolding city_hash32
empty_hash = refl

hello_hash : city_hash32 (codes "hello") ≡ some 0x79969366
unfolding city_hash32
hello_hash = refl

abbrev long_key : List ℕ
long_key = codes "github.auth.fingerprint.sha1.timings.count.of.them"

long_hash : city_hash32 long_key ≡ some 2054607506
unfolding city_hash32
long_hash = refl

city_hash32-Succeeds_example : Succeeds (city_hash32 long_key)
city_hash32-Succeeds_example = city_hash32-Succeeds long_key
