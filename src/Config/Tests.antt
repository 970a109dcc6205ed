-- ===== src/Config/Tests.antt =====
-- Configurations, and the names of their files.
use brubeck.Prelude.{◌≡◌, refl, [], ◌∷◌, none, some, replicate, codes}
use brubeck.Config.{after_last, before_last, get_config_name, fill_slots, load_backends}

names :
    (get_config_name (codes "/etc/brubeck.d/main.json") ≡ codes "main")
    × (get_config_name (codes "main") ≡ codes "main")
unfolding get_config_name after_last before_last
names = (refl, refl)

-- The ninth backend is written behind the array.
backends :
    (load_backends (some (codes "carbon") ∷ some (codes "file") ∷ none ∷ []) ≡ some 1)
    × (load_backends (replicate 9 (some (codes "carbon"))) ≡ none)
unfolding fill_slots
backends = (refl, refl)
