-- ===== src/Http/Requests.antt =====
-- What the requests of src/http.c give and change.
use mathlib.Core.Path.{subst}
use brubeck.Prelude.{
  ℕ, zero, suc, ◌≤◌, ◌≡◌, ◌⊎◌, inl, inr, refl, sym, List, Option, none, some, Bool, true, false,
  arith, ◌>>=◌, codes, get_elem?, set, Nat-cases, get_elem?-set_self, get_elem?-set_other,
}
use brubeck.Value.{Double}
use brubeck.Metric.{Metric, expire_disabled}
use brubeck.HashTable.{CkHt}
use brubeck.Server.{Server}
use brubeck.Server.Valid.{IsValid, IsValid-Extends, Continues, write-Extends}
use brubeck.Http.{
  Around, Page, no_text, metric_page, stats_page, ping_page, dumped, Reply, metric_types,
  expire_status, expire_found, metric_found,
}

abbrev pub disabled : {V : Type 0} → Metric V → Metric V
disabled m = record m { expire = expire_disabled }

abbrev pub post : List ℕ
post = codes "POST"

status_of : (n : ℕ) → n ≤ 2 → (text : List ℕ) × (get_elem? expire_status n ≡ some text)
status_of zero h = (codes "disabled", refl)
status_of (suc zero) h = (codes "inactive", refl)
status_of (suc (suc zero)) h = (codes "active", refl)
status_of (suc (suc (suc n))) h = absurd (omega arith)

module _ {V T : Type 0} ⦃d : Double V⦄ (ck : CkHt T) (name : List ℕ) (around : Around V) where
  -- No metric of the table is more than active.
  abbrev pub Timed : Server V T → Type 0
  Timed s =
      (k : List ℕ) (i : ℕ) (m : Metric V)
      → ck.get_spmc s.metrics k ≡ some i
      → get_elem? s.store i ≡ some m
      → m.expire ≤ 2

  -- The server is valid, nothing but the store has changed, and there only metrics that were disabled.
  pub record Serves (expires : Bool) (s s' : Server V T) : Type 0 where
    pub valid : IsValid ck name s'
    pub rest : s' ≡ record s { store = s'.store }
    pub changes :
        (i : ℕ)
        → (get_elem? s'.store i ≡ get_elem? s.store i)
          ⊎ ((expires ≡ true)
              × ((m : Metric V) × (get_elem? s.store i ≡ some m)
                  × (get_elem? s'.store i ≡ some (disabled m))))

  -- A page that a GET may show: the metric of a key, the sampled counters, or the rates.
  abbrev pub Shown : Server V T → Page V → Type 0
  Shown s (metric_page key type value status) =
      (i : ℕ) × (m : Metric V) × (ck.get_spmc s.metrics key ≡ some i)
      × (get_elem? s.store i ≡ some m)
      × (type ≡ metric_types m.type)
      × (get_elem? expire_status m.expire ≡ some status)
  Shown s (stats_page counters backends samplers) =
      (counters ≡ s.internal_stats.sample)
      × (backends ≡ around.backends)
      × (samplers ≡ around.samplers)
  Shown s (ping_page pid status metrics errors keys) =
      let frequency = d.of_nat s.internal_stats.sample_freq in
      (metrics ≡ d.div (d.of_nat s.internal_stats.sample.metrics) frequency)
      × (errors ≡ d.div (d.of_nat s.internal_stats.sample.errors) frequency)
      × (keys ≡ s.internal_stats.sample.unique_keys)
  Shown s _ = ⊥

  -- The JSON library gives no text for a page that is shown.
  abbrev pub Unpacked : Server V T → Type 0
  Unpacked s = (page : Page V) × Shown s page × (around.packs page ≡ false)

  -- An answer is there, but for a GET whose page has no text; with 404 the server is as it was.
  abbrev pub Answers : Bool → Bool → Server V T → Option (Reply V × Server V T) → Type 0
  Answers get expires s none = (get ≡ true) × Unpacked s
  Answers get expires s (some (reply, s')) =
      Serves expires s s' × ((reply.status ≡ 200) ⊎ ((reply.status ≡ 404) × (s' ≡ s)))

  abbrev pub Pages : Bool → Server V T → Option (Option (Page V) × Server V T) → Type 0
  Pages expires s none = ⊥
  Pages expires s (some (none, s')) = s' ≡ s
  Pages expires s (some (some page, s')) = Serves expires s s'

  pub unchanged : (b : Bool) (s : Server V T) → IsValid ck name s → Serves b s s
  unchanged b s ok = record { valid = ok; rest = refl; changes = λ i. inl refl }

  -- One metric of the table is disabled.
  pub expired :
      (s : Server V T) (k : List ℕ) (i : ℕ)
      → IsValid ck name s
      → ck.get_spmc s.metrics k ≡ some i
      → (m : Metric V) × (get_elem? s.store i ≡ some m)
        × (m.key ≡ k)
        × (expire_found ck around s (some i)
            ≡ some (some no_text, record s { store = set s.store i (disabled m) }))
        × Serves true s (record s { store = set s.store i (disabled m) })
  unfolding expire_found
  expired s k i ok e =
      let n = ok.known k i e in
      let m = n.metric in
      let c : Continues m (disabled m) = record { key = refl; type = refl; member = λ h. h } in
      let x = write-Extends s i m (disabled m) n.there c in
      let after : Server V T = record s { store = set s.store i (disabled m) } in
      (
        m,
        n.there,
        n.key,
        rw (n.there) refl,
        record {
          valid = IsValid-Extends ck name s after x ok.slab refl ok;
          rest = refl;
          changes = λ j. elim (Nat-cases j i) [
            | inl same ↦ inr (
              refl,
              (m, rw same (n.there), rw same (get_elem?-set_self s.store i m (disabled m) n.there)),
            )
            | inr other ↦ inl (get_elem?-set_other s.store i j (disabled m) other)
          ];
        },
      )

  pub expire_found-Pages :
      (s : Server V T) (k : List ℕ)
      → IsValid ck name s
      → Pages true s (expire_found ck around s (ck.get_spmc s.metrics k))
  unfolding expire_found
  expire_found-Pages s k ok = found (ck.get_spmc s.metrics k) refl
    where
      found :
          (r : Option ℕ) → ck.get_spmc s.metrics k ≡ r → Pages true s (expire_found ck around s r)
      found none e = refl
      found (some i) e =
          let (m, at, key, result, serves) = expired s k i ok e in
          subst (Pages true s) (sym result) serves

  pub metric_found_lem :
      (s : Server V T) (k : List ℕ) (i : ℕ)
      → IsValid ck name s
      → Timed s
      → ck.get_spmc s.metrics k ≡ some i
      → (m : Metric V) × ((status : List ℕ) × (get_elem? s.store i ≡ some m)
          × (get_elem? expire_status m.expire ≡ some status)
          × (metric_found ck around s (some i) ≡ (do
            page ← dumped ck around (metric_page k (metric_types m.type) 0 status)
            some (some page))))
  unfolding metric_found
  metric_found_lem s k i ok timed e =
      let n = ok.known k i e in
      let (status, shown) = status_of n.metric.expire (timed k i n.metric e n.there) in
      (n.metric, (status, n.there, shown, rw (n.there, shown, n.key) refl))
