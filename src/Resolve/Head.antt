-- ===== src/Resolve/Head.antt =====
-- Which address `url_to_inaddr2` of src/utils.c takes.
use brubeck.Prelude.{
  ℕ, ◌≡◌, ◌⊎◌, inl, inr, refl, List, [], ◌∷◌, Option, none, some, Bool, Bool-cases, ◌==◌, ◌&&◌,
  false, true, u16, arith,
}
use brubeck.Resolve.{
  AddrInfo, Resolved, unresolved, not_supported, address, af_inet, sockaddr_size, find_rp, copied,
  url_to_inaddr2,
}

abbrev pub IsIpv4 : AddrInfo → Type 0
IsIpv4 r = (r.ai_family ≡ af_inet) × (r.ai_addrlen ≡ sockaddr_size)

abbrev fits : AddrInfo → Bool
fits r = (r.ai_family == af_inet) && (r.ai_addrlen == sockaddr_size)

find_rp-none :
    (result : AddrInfo) (l : List AddrInfo) → fits result ≡ false → find_rp result l ≡ none
unfolding find_rp
find_rp-none result [] e = refl
find_rp-none result (rp ∷ l) e = rw e (find_rp-none result l e)

-- What comes of the answer of getaddrinfo.
abbrev pub Takes : ℕ → Option (List AddrInfo) → Resolved → Type 0
Takes port none r = r ≡ unresolved
Takes port (some []) r = r ≡ not_supported
Takes port (some (result ∷ next)) r =
    (IsIpv4 result × (r ≡ address (record result.ai_addr { sin_port = u16 port })))
    ⊎ ((IsIpv4 result → ⊥) × (r ≡ not_supported))

copied-Takes :
    (port : ℕ) (result : AddrInfo) (next : List AddrInfo)
    → Takes port (some (result ∷ next)) (copied port (find_rp result (result ∷ next)))
unfolding find_rp
copied-Takes port result next = elim (Bool-cases (fits result)) [
  | inl e ↦
      let family : result.ai_family ≡ af_inet = ground arith in
      let size : result.ai_addrlen ≡ sockaddr_size = ground arith in
      let same : (result.ai_addrlen == sockaddr_size) ≡ true = ground arith in
      rw (e, same) (inl ((family, size), refl))
  | inr e ↦
      let other : IsIpv4 result → ⊥ = λ (f, s). ground arith in
      rw (e, find_rp-none result next e) (inr (other, refl))
]

-- The name of a host gives the first address of the list that getaddrinfo gives, with the port in its 16
-- bits, if that first one is an IPv4 address of the size of the structure; if it is not, whatever stands
-- behind it, or if there is none, the program ends. What is copied has the size of the structure.
pub url_to_inaddr2-Takes :
    (getaddrinfo : List ℕ → Option (List AddrInfo)) (url : List ℕ) (port : ℕ)
    → Takes port (getaddrinfo url) (url_to_inaddr2 getaddrinfo (some url) port)
unfolding url_to_inaddr2
url_to_inaddr2-Takes getaddrinfo url port = go (getaddrinfo url)
  where
    go :
        (l : Option (List AddrInfo))
        → Takes port l (elim l [
          | none ↦ unresolved
          | some [] ↦ not_supported
          | some (result ∷ next) ↦ copied port (find_rp result (result ∷ next))
        ])
    go none = refl
    go (some []) = refl
    go (some (result ∷ next)) = copied-Takes port result next
