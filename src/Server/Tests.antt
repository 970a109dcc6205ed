-- ===== src/Server/Tests.antt =====
-- A server with two backends and no metric yet, for tests and witnesses.
use brubeck.Prelude.{◌≡◌, refl, ℕ, arith, List, [], ◌∷◌, codes, false, Option, none, some}
use brubeck.Value.Whole.{whole}
use brubeck.Slab.{slab_init, push_node, slab_alloc}
use brubeck.Slab.Bounds.{slab_init-IsValid}
use brubeck.Stats.{Counters}
use brubeck.Metric.{MetricType, new_metric}
use brubeck.HashTable.Assoc.{Entries, assoc, assoc-IsTable}
use brubeck.Server.{Server, metric_find, metric_new, metric_shard}
use brubeck.Server.Init.{internal__init}
use brubeck.City.{city_hash32}
use brubeck.Server.Valid.{IsValid}
use brubeck.Server.Insert.{Finds}
use brubeck.Server.Race.{Yields, metric_new-Yields}
use brubeck.Server.Find.{metric_find-Finds}

abbrev pub server_name : List ℕ
server_name = codes "brubeck"

abbrev zero_counters : Counters
zero_counters = record {
  metrics = 0;
  errors = 0;
  unique_keys = 0;
  failed = 0;
  from_future = 0;
  delayed = 0;
  replayed = 0;
}

abbrev pub empty_server : Server ℕ Entries
empty_server = record {
  slab = slab_init;
  metrics = [];
  store = [];
  at_capacity = false;
  backends = [] ∷ [] ∷ [];
  internal_stats = record { sample_freq = 10; live = zero_counters; sample = zero_counters };
}

pub empty_server-IsValid : IsValid assoc server_name empty_server
empty_server-IsValid = record {
  slab = slab_init-IsValid;
  backend = omega arith;
  known = λ k i e. absurd cc;
}

abbrev server_of : Option (Option ℕ × Server ℕ Entries) → Server ℕ Entries
server_of none = empty_server
server_of (some (_, s)) = s

abbrev first_found : Option (Option ℕ × Server ℕ Entries)
first_found = metric_find assoc empty_server (codes "github.auth") 11 MetricType.timer

-- The server with one timer.
abbrev pub filled_server : Server ℕ Entries
filled_server = server_of first_found

server_of-IsValid :
    (r : Option (Option ℕ × Server ℕ Entries))
    → Finds assoc server_name empty_server (codes "github.auth") MetricType.timer r
    → IsValid assoc server_name (server_of r)
server_of-IsValid none h = absurd h
server_of-IsValid (some (none, s)) (full, _, _) = absurd cc
server_of-IsValid (some (some i, s)) h = h.valid

pub filled_server-IsValid : IsValid assoc server_name filled_server
filled_server-IsValid = server_of-IsValid first_found (
    metric_find-Finds assoc server_name empty_server (codes "github.auth") MetricType.timer
      empty_server-IsValid assoc-IsTable (λ e. absurd cc) (omega arith))

metric_find-Finds_example :
    Finds assoc server_name empty_server
      (codes "github.auth")
      MetricType.timer
      (metric_find assoc empty_server (codes "github.auth") 11 MetricType.timer)
metric_find-Finds_example =
    metric_find-Finds assoc server_name empty_server (codes "github.auth") MetricType.timer
      empty_server-IsValid assoc-IsTable (λ e. absurd cc) (omega arith)

-- The frequency of the backend that the server's own metric is in, and its entry in the queue.
abbrev started : Option (Server ℕ Entries) → ℕ × List (List ℕ)
started none = (0, [])
started (some s) = (s.internal_stats.sample_freq, s.backends)

internal__init_values :
    started (internal__init assoc server_name (20 ∷ 30 ∷ []) empty_server)
    ≡ (20, (0 ∷ []) ∷ [] ∷ [])
unfolding internal__init metric_new metric_shard city_hash32 slab_init push_node slab_alloc
    new_metric
internal__init_values = refl

timer_known : assoc.get_spmc filled_server.metrics (codes "github.auth") ≡ some 0
unfolding metric_find city_hash32 slab_init push_node slab_alloc new_metric
timer_known = refl

metric_new-Yields_example :
    (s' : Server ℕ Entries) × (metric_new assoc filled_server
        (codes "github.auth")
        11
        MetricType.meter
      ≡ some (some 0, s'))
    × Yields assoc server_name (codes "github.auth") filled_server s'
metric_new-Yields_example =
    metric_new-Yields assoc server_name filled_server (codes "github.auth") MetricType.meter 0
      filled_server-IsValid assoc-IsTable (omega arith) timer_known
