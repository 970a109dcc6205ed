-- ===== src/Http/Answers.antt =====
-- Every request of src/http.c is answered, and what the two requests about one metric do.
use mathlib.Core.Path.{subst}
use brubeck.Prelude.{
  ℕ, ◌<◌, ◌^◌, ◌≡◌, inl, inr, refl, sym, List, ◌++◌, Option, none, some, Bool, true, false, arith,
  ◌&&◌, if◌then◌else◌, ◌>>=◌, codes, u16, length, get_elem?, set, take, text_eq, starts_with,
  Bool-cases, take_of_le,
}
use brubeck.Value.{Double}
use brubeck.Metric.{Metric}
use brubeck.HashTable.{CkHt}
use brubeck.Server.{Server}
use brubeck.Server.Valid.{IsValid}
use brubeck.Http.{
  Around, Page, no_text, not_found, metric_page, dumped, Reply, metric_types, expire_status,
  expire_found, expire_url, metric_found, send_metric, on_get, on_post, respond, handle_request,
}
use brubeck.Http.Requests.{disabled, post, Timed, Unpacked, expired, metric_found_lem}

short_key : (k : List ℕ) → length k < 2 ^ 16 → take (u16 (u16 (length k))) k ≡ k
short_key k h = take_of_le (u16 (u16 (length k))) k (omega arith)

abbrev pub is_expire : List ℕ → List ℕ → Bool
is_expire method url = text_eq method post && starts_with url (codes "/expire/")

module _ {V T : Type 0} ⦃d : Double V⦄ (ck : CkHt T) (name : List ℕ) (around : Around V) where
  -- What comes of a GET: only a page without a text is a fault.
  abbrev Gets : Server V T → Option (Option (Page V)) → Type 0
  Gets s none = Unpacked ck name around s
  Gets s (some page) = Unit

  -- What a request about the metric of a key comes to, by what the table has for the key.
  abbrev pub Shows : Server V T → List ℕ → Option ℕ → Option (Reply V × Server V T) → Type 0
  Shows s k none r = r ≡ some (record { status = 404; page = not_found; is_json = false }, s)
  Shows s k (some i) r =
      (m : Metric V) × ((status : List ℕ) × (get_elem? s.store i ≡ some m)
        × (get_elem? expire_status m.expire ≡ some status)
        × (r ≡ (
            let page = metric_page k (metric_types m.type) 0 status in
            if around.packs page
            then some (record { status = 200; page = page; is_json = true }, s)
            else none)))

  abbrev pub Expires : Server V T → List ℕ → Option ℕ → Option (Reply V × Server V T) → Type 0
  Expires s k none r = r ≡ some (record { status = 404; page = not_found; is_json = false }, s)
  Expires s k (some i) r =
      (m : Metric V) × (get_elem? s.store i ≡ some m)
      × (r
          ≡ some (
            record { status = 200; page = no_text; is_json = true },
            record s { store = set s.store i (disabled m) },
          ))

  -- On a valid server whose metrics are at most active, for a key of less than 2 ^ 16 bytes: a GET of
  -- /metric/ with the key is answered with 200 and shows the metric that the table has for it, with its
  -- key, type and expiry, and changes nothing, if the JSON library gives a text for these, and faults if
  -- it gives none; a POST to /expire/ with the key is answered with 200, disables that metric and changes
  -- nothing else; and both are answered with 404 and change nothing if the table has none.
  pub request_of_metric :
      (s : Server V T) (k : List ℕ)
      → IsValid ck name s
      → Timed ck name around s
      → length k < 2 ^ 16
      → Shows s k
          (ck.get_spmc s.metrics k)
          (handle_request ck around s (codes "GET") (codes "/metric/" ++ k))
        × Expires s k
            (ck.get_spmc s.metrics k)
            (handle_request ck around s post (codes "/expire/" ++ k))
  unfolding handle_request on_get on_post send_metric expire_url respond
  request_of_metric s k ok timed h =
      let found = ck.get_spmc s.metrics k in
      (
        subst
            (λ x. Shows s k found (do
              page ← metric_found ck around s (ck.get_spmc s.metrics x)
              some (respond ck around page, s)))
            (sym (short_key k h)) (shown found refl),
        subst
            (λ x. Expires s k found (do
              (page, s') ← expire_found ck around s (ck.get_spmc s.metrics x)
              some (respond ck around page, s')))
            (sym (short_key k h)) (expires found refl),
      )
    where
      packed :
          (page : Page V)
          → (let answer : Option (Page V) → Option (Reply V × Server V T) =
                λ p. some (respond ck around p, s) in
              (dumped ck around page >>= λ q. some (some q)) >>= answer)
            ≡ (if around.packs page
                then some (record { status = 200; page = page; is_json = true }, s)
                else none)
      packed page = elim (Bool-cases (around.packs page)) [ inl e ↦ rw e refl | inr e ↦ rw e refl ]

      shown :
          (r : Option ℕ)
          → ck.get_spmc s.metrics k ≡ r
          → Shows s k r (do page ← metric_found ck around s r; some (respond ck around page, s))
      shown none e = refl
      shown (some i) e =
          let (m, (status, at, text, r)) = metric_found_lem ck name around s k i ok timed e in
          (m, (status, at, text, rw r (packed (metric_page k (metric_types m.type) 0 status))))

      expires :
          (r : Option ℕ)
          → ck.get_spmc s.metrics k ≡ r
          → Expires s k r
              (do (page, s') ← expire_found ck around s r; some (respond ck around page, s'))
      expires none e = refl
      expires (some i) e =
          let (m, at, _, r, _) = expired ck name around s k i ok e in (m, at, rw r refl)
