-- ===== src/Http.antt =====
-- `handle_request` of src/http.c and the pages behind it, in a build without the metrics flow. A
-- request is its method and its URL, a page what the code puts into its JSON; the texts of the
-- addresses are given. A fault is `none`.
pub mod Requests
pub mod Answers
mod Tests
use brubeck.Prelude.{
  ℕ, ◌/◌, List, [], ◌∷◌, Option, none, some, Bool, true, false, ◌||◌, if◌then◌else◌, ◌>>=◌, codes,
  u16, length, get_elem?, set, drop, text_eq, starts_with,
}
use brubeck.Value.{Double}
use brubeck.Stats.{Counters}
use brubeck.Metric.{MetricType, Metric, expire_disabled}
use brubeck.HashTable.{CkHt, hashtable_find}
use brubeck.Server.{Server}

-- What is shown of a carbon backend and of a sampler.
pub record CarbonInfo : Type 0 where
  pub sample_freq : ℕ
  pub connected : Bool
  pub address : List ℕ
  pub port : ℕ
  pub sent : ℕ

pub record SamplerInfo (V : Type 0) : Type 0 where
  pub type : List ℕ
  pub sample_freq : V
  pub address : List ℕ
  pub port : ℕ

pub data Page (V : Type 0) : Type 0 where
  no_text not_found : Page V
  metric_page : List ℕ → List ℕ → ℕ → List ℕ → Page V
  stats_page : Counters → List CarbonInfo → List (SamplerInfo V) → Page V
  ping_page : ℕ → List ℕ → V → V → ℕ → Page V

-- What the endpoint reads, besides the server, and for which pages the JSON library gives a text:
-- json_pack gives a null pointer for a number that is not finite and for bytes that are not UTF-8.
pub record Around (V : Type 0) : Type 0 where
  pub pid : ℕ
  pub backends : List CarbonInfo
  pub samplers : List (SamplerInfo V)
  pub packs : Page V → Bool

pub record Reply (V : Type 0) : Type 0 where
  pub status : ℕ
  pub page : Page V
  pub is_json : Bool

abbrev pub metric_types : MetricType → List ℕ
metric_types MetricType.gauge = codes "gauge"
metric_types MetricType.meter = codes "meter"
metric_types MetricType.counter = codes "counter"
metric_types MetricType.histo = codes "histogram"
metric_types MetricType.timer = codes "timer"
metric_types MetricType.internal_stats = codes "internal"

abbrev pub expire_status : List (List ℕ)
expire_status = codes "disabled" ∷ codes "inactive" ∷ codes "active" ∷ []

-- The status of a ping: the loop stops at the first backend that is not connected.
unfoldable pub ping_status : List CarbonInfo → List ℕ
ping_status [] = codes "OK"
ping_status (b ∷ bs) =
    let rest = ping_status bs in if b.connected then rest else codes "ERROR (backend disconnected)"

module _ {V T : Type 0} ⦃d : Double V⦄ (ck : CkHt T) (around : Around V) where
  -- `json_pack`, `json_dumps` and `strlen`: without a text, `strlen` reads through a null pointer.
  abbrev pub dumped : Page V → Option (Page V)
  dumped page = if around.packs page then some page else none

  -- The length of the key is cut to a `uint16_t`.
  abbrev pub safe_lookup_metric : Server V T → List ℕ → Option ℕ
  safe_lookup_metric s key = hashtable_find ck s.metrics key (u16 (length key))

  unfoldable pub expire_found : Server V T → Option ℕ → Option (Option (Page V) × Server V T)
  expire_found s none = some (none, s)
  expire_found s (some id) = do
    m ← get_elem? s.store id
    some (some no_text, record s { store = set s.store id (record m { expire = expire_disabled }) })

  -- `expire_metric`; the inner `none` is a null response.
  unfoldable pub expire_url : Server V T → List ℕ → Option (Option (Page V) × Server V T)
  unfolding expire_found
  expire_url s url = expire_found s (safe_lookup_metric s (drop (length (codes "/expire/")) url))

  unfoldable pub metric_found : Server V T → Option ℕ → Option (Option (Page V))
  metric_found s none = some none
  metric_found s (some id) = do
    m ← get_elem? s.store id
    status ← get_elem? expire_status m.expire
    page ← dumped (metric_page m.key (metric_types m.type) 0 status)
    some (some page)

  unfoldable pub send_metric : Server V T → List ℕ → Option (Option (Page V))
  unfolding metric_found
  send_metric s url = metric_found s (safe_lookup_metric s (drop (length (codes "/metric/")) url))

  unfoldable pub send_stats : Server V T → Option (Page V)
  send_stats s = dumped (stats_page s.internal_stats.sample around.backends around.samplers)

  unfoldable pub send_ping : Server V T → Option (Page V)
  unfolding ping_status
  send_ping s =
      let sample = s.internal_stats.sample in
      let frequency = d.of_nat s.internal_stats.sample_freq in
      dumped (
        ping_page around.pid (ping_status around.backends)
          (d.div (d.of_nat sample.metrics) frequency) (d.div (d.of_nat sample.errors) frequency)
          sample.unique_keys)

  unfoldable pub on_get : Server V T → List ℕ → Option (Option (Page V))
  unfolding send_ping send_stats send_metric
  on_get s url =
      if text_eq url (codes "/_ping") || text_eq url (codes "/ping")
      then (do page ← send_ping s; some (some page))
      else if text_eq url (codes "/stats")
      then (do page ← send_stats s; some (some page))
      else if text_eq url (codes "/flow_stats")
      then some none
      else if starts_with url (codes "/metric/")
      then send_metric s url
      else some none

  unfoldable pub on_post : Server V T → List ℕ → Option (Option (Page V) × Server V T)
  unfolding expire_url
  on_post s url = if starts_with url (codes "/expire/") then expire_url s url else some (none, s)

  unfoldable pub respond : Option (Page V) → Reply V
  respond none = record { status = 404; page = not_found; is_json = false }
  respond (some page) = record { status = 200; page = page; is_json = true }

  unfoldable pub handle_request : Server V T → List ℕ → List ℕ → Option (Reply V × Server V T)
  unfolding on_get on_post respond
  handle_request s method url =
      if text_eq method (codes "GET")
      then (do page ← on_get s url; some (respond page, s))
      else if text_eq method (codes "POST")
      then (do (page, s') ← on_post s url; some (respond page, s'))
      else some (respond none, s)
