-- ===== src/Resolve/Tests.antt =====
-- An IPv4 address behind an IPv6 one, and in front of it.
use brubeck.Prelude.{ℕ, ◌≡◌, refl, List, [], ◌∷◌, some, codes}
use brubeck.Resolve.{AddrInfo, Resolved, not_supported, address, find_rp, url_to_inaddr2}

abbrev info : ℕ → ℕ → ℕ → AddrInfo
info family size addr = record {
  ai_family = family;
  ai_addrlen = size;
  ai_addr = record { sin_family = family; sin_port = 0; sin_addr = addr };
}

abbrev resolve : List AddrInfo → Resolved
resolve l = url_to_inaddr2 (λ url. some l) (some (codes "localhost")) 8126

resolve_values :
    (resolve (info 10 28 1 ∷ info 2 16 7 ∷ []) ≡ not_supported)
    × (resolve (info 2 16 7 ∷ info 10 28 1 ∷ [])
        ≡ address (record { sin_family = 2; sin_port = 8126; sin_addr = 7 }))
unfolding url_to_inaddr2 find_rp
resolve_values = (refl, refl)
