-- ===== src/Resolve.antt =====
-- `url_to_inaddr2` of src/utils.c. What getaddrinfo gives for a name is an argument, `none` for an
-- error; the numbers of an address are in the order of the host.
pub mod Head
mod Tests
use brubeck.Prelude.{
  ℕ, zero, suc, List, [], ◌∷◌, Option, none, some, ◌==◌, ◌&&◌, if◌then◌else◌, u16,
}

abbrev pub af_inet : ℕ
af_inet = 2

-- `sizeof(struct sockaddr_in)`
abbrev pub sockaddr_size : ℕ
sockaddr_size = 16

-- `struct sockaddr_in`
pub record SockAddr : Type 0 where
  pub sin_family : ℕ
  pub sin_port : ℕ
  pub sin_addr : ℕ

-- What the loop reads of a `struct addrinfo`.
pub record AddrInfo : Type 0 where
  pub ai_family : ℕ
  pub ai_addrlen : ℕ
  pub ai_addr : SockAddr

-- What ends the program, a copy of another size than the structure has, or the structure.
pub data Resolved : Type 0 where
  unresolved not_supported : Resolved
  overrun : ℕ → Resolved
  address : SockAddr → Resolved

-- The loop over the list that begins at `result`; its test reads `result` and not the cursor.
unfoldable pub find_rp : AddrInfo → List AddrInfo → Option AddrInfo
find_rp result [] = none
find_rp result (rp ∷ next) =
    let rest = find_rp result next in
    if (result.ai_family == af_inet) && (result.ai_addrlen == sockaddr_size) then some rp else rest

abbrev pub copied : ℕ → Option AddrInfo → Resolved
copied port none = not_supported
copied port (some rp) =
    if rp.ai_addrlen == sockaddr_size
    then address (record rp.ai_addr { sin_port = u16 port })
    else overrun rp.ai_addrlen

-- The URL, and what getaddrinfo gives for it.
unfoldable pub url_to_inaddr2 : (List ℕ → Option (List AddrInfo)) → Option (List ℕ) → ℕ → Resolved
unfolding find_rp
url_to_inaddr2 getaddrinfo none port =
    address (record { sin_family = af_inet; sin_port = u16 port; sin_addr = 0 })
url_to_inaddr2 getaddrinfo (some url) port = elim (getaddrinfo url) [
  | none ↦ unresolved
  | some [] ↦ not_supported
  | some (result ∷ next) ↦ copied port (find_rp result (result ∷ next))
]
