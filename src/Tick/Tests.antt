-- ===== src/Tick/Tests.antt =====
-- Turns of a carbon backend at a server with one timer.
use brubeck.Prelude.{
  ℕ, ◌-◌, ◌≤◌, ◌<◌, ◌≡◌, refl, List, [], ◌∷◌, some, true, false, if◌then◌else◌, ◌>>=◌, get_elem?,
  set, replicate, codes,
}
use brubeck.Value.Whole.{whole}
use brubeck.Slab.{slab_init, push_node, slab_alloc}
use brubeck.City.{city_hash32}
use brubeck.Metric.{MetricType, Metric, new_metric}
use brubeck.Metric.Sampling.{metric_sample}
use brubeck.HashTable.Assoc.{assoc, assoc-IsTable}
use brubeck.Server.{metric_find}
use brubeck.Server.Tests.{server_name, filled_server, filled_server-IsValid}
use brubeck.Loop.Expiry.{passes}
use brubeck.Carbon.{Written, wrote, Carbon, pickle1_init}
use brubeck.Carbon.Connection.{Dial, carbon_operations}
use brubeck.Tick.{Operations, Turn, backend_turn}
use brubeck.Tick.Reports.{sampled_one, sampled, reported, backend_turn-sampled}
use brubeck.Tick.Silence.{passes-silent}

abbrev carbon : Carbon
carbon = record {
  is_connected = false;
  tick_time = 0;
  pickler = pickle1_init;
  sent = 0;
  stream = [];
}

abbrev dial : Dial
dial = record { socket = true; connect = true }

abbrev operations : Operations (Carbon × List Written) ℕ
operations = carbon_operations (λ v. replicate 8 0) dial

abbrev turn : Turn (Carbon × List Written) ℕ
turn = record {
  self = (carbon, wrote 57 ∷ []);
  store = filled_server.store;
  stats = filled_server.internal_stats;
}

backend_turn-sampled_example : backend_turn (λ c xs. xs) 10 operations 1234 (0 ∷ []) turn ≡ (
    let (up, self) = operations.connect turn.self in
    if up
    then (sampled (λ c xs. xs) 10 (0 ∷ []) turn.store turn.stats
        >>= reported (λ c xs. xs) 10 operations (operations.at_time 1234 self))
    else some (record turn { self = self }))
backend_turn-sampled_example = backend_turn-sampled (λ c xs. xs) 10 operations 1234 (0 ∷ []) turn

abbrev timer : Metric ℕ
timer = new_metric (codes "github.auth") MetricType.timer

timer_there : get_elem? filled_server.store 0 ≡ some timer
unfolding metric_find city_hash32 slab_init push_node slab_alloc new_metric
timer_there = refl

timer_known : assoc.get_spmc filled_server.metrics (codes "github.auth") ≡ some 0
unfolding metric_find city_hash32 slab_init push_node slab_alloc new_metric
timer_known = refl

passes-silent_example :
    let store = (passes assoc server_name 2 filled_server).store in
    let stats = filled_server.internal_stats in
    (timer.expire ≤ 2
      → sampled_one (λ c xs. xs) 10 0 store stats
        ≡ some (record { report = []; store = store; stats = stats }))
    × (2 < timer.expire
        → sampled_one (λ c xs. xs) 10 0 store stats ≡ (do
          (report, m', stats') ←
              metric_sample (λ c xs. xs) (record timer { expire = timer.expire - 2 }) 10 stats
          some (record { report = report; store = set store 0 m'; stats = stats' })))
passes-silent_example =
    passes-silent assoc server_name (λ c xs. xs) 10 2 filled_server (codes "github.auth") 0 timer
      filled_server.internal_stats filled_server-IsValid assoc-IsTable timer_known timer_there
