-- ===== src/Http/Tests.antt =====
-- Requests at a server with one timer.
use mathlib.Core.Path.{subst}
use brubeck.Prelude.{
  ℕ, zero, suc, ◌≤◌, ◌≡◌, refl, arith, List, [], ◌∷◌, ◌++◌, some, true, false, codes, get_elem?,
  Bool, ltb, ◌&&◌,
}
use brubeck.Value.Whole.{whole}
use brubeck.Slab.{slab_init, push_node, slab_alloc}
use brubeck.City.{city_hash32}
use brubeck.Metric.{MetricType, Metric, new_metric}
use brubeck.HashTable.Assoc.{assoc}
use brubeck.Server.{metric_find}
use brubeck.Server.Tests.{server_name, filled_server, filled_server-IsValid}
use brubeck.Http.{Around, Page, metric_page, on_get, respond, handle_request}
use brubeck.Http.Requests.{post, Timed, Answers}
use brubeck.Http.Answers.{Shows, Expires, request_of_metric}

abbrev all_ascii : List ℕ → Bool
all_ascii [] = true
all_ascii (c ∷ cs) = ltb c 128 && all_ascii cs

-- A page of a key in ASCII, or without a key.
abbrev packable : Page ℕ → Bool
packable (metric_page key type value status) = all_ascii key
packable _ = true

abbrev around : Around ℕ
around = record {
  pid = 4711;
  backends =
      record {
        sample_freq = 10;
        connected = false;
        address = codes "10.0.0.1";
        port = 2003;
        sent = 0;
      }
      ∷ [];
  samplers = [];
  packs = packable;
}

abbrev key : List ℕ
key = codes "github.auth"

abbrev timer : Metric ℕ
timer = new_metric key MetricType.timer

filled_store : filled_server.store ≡ timer ∷ []
unfolding metric_find city_hash32 slab_init push_node slab_alloc new_metric
filled_store = refl

is_timer : (i : ℕ) (m : Metric ℕ) → get_elem? (timer ∷ []) i ≡ some m → m.expire ≤ 2
unfolding new_metric
is_timer zero m e = let same : timer ≡ m = cc in subst (λ x. x.expire ≤ 2) same (omega arith)
is_timer (suc i) m e = cc

filled_server-Timed : Timed assoc server_name around filled_server
filled_server-Timed k i m e at =
    is_timer i m (subst (λ store. get_elem? store i ≡ some m) filled_store at)

metric_page_shown :
    handle_request assoc around filled_server (codes "GET") (codes "/metric/github.auth")
    ≡ some (
      record {
        status = 200;
        page = metric_page key (codes "timer") 0 (codes "active");
        is_json = true;
      },
      filled_server,
    )
unfolding handle_request on_get respond metric_find city_hash32 slab_init push_node slab_alloc
    new_metric
metric_page_shown = refl

request_of_metric_example :
    Shows assoc server_name around filled_server key
      (assoc.get_spmc filled_server.metrics key)
      (handle_request assoc around filled_server (codes "GET") (codes "/metric/" ++ key))
    × Expires assoc server_name around filled_server key
        (assoc.get_spmc filled_server.metrics key)
        (handle_request assoc around filled_server post (codes "/expire/" ++ key))
request_of_metric_example =
    request_of_metric assoc server_name around filled_server key filled_server-IsValid
      filled_server-Timed (omega arith)
