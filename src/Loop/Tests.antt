-- ===== src/Loop/Tests.antt =====
-- Runs of the loop of the server.
use brubeck.Prelude.{ℕ, List, [], ◌∷◌, ◌++◌, Option, none, some, ◌≡◌, refl, true, false, codes}
use brubeck.Value.Whole.{whole}
use brubeck.Metric.{new_metric}
use brubeck.HashTable.Assoc.{Entries, assoc}
use brubeck.Server.{metric_find}
use brubeck.Server.Tests.{filled_server}
use brubeck.Slab.{slab_init, push_node, slab_alloc}
use brubeck.City.{city_hash32}
use brubeck.Loop.{
  Signal, sighup, sigint, sigusr2, Poll, Daemon, Effect, dumped, backend_cancelled,
  sampler_shut_down, server_run,
}
use brubeck.Loop.Stop.{ends, turns, last_effects, server_run-stops}

abbrev daemon : Daemon ℕ Entries
daemon = record {
  server = filled_server;
  running = false;
  expires = true;
  dump_path = true;
  samplers = record { inflow = 7; current_flow = 3; shutdown = true } ∷ [];
  effects = [];
}

abbrev poll_of : Signal → Poll
poll_of s = record {
  failed = false;
  signal = record { pollin = true; whole = true; signo = s };
  update = record { pollin = true; whole = true };
  expire = record { pollin = true; whole = true };
  opens = true;
}

abbrev effects_of : Option (Daemon ℕ Entries × List Poll) → List Effect
effects_of none = []
effects_of (some (d, ps)) = d.effects

effects_dump :
    effects_of (server_run assoc (poll_of sigusr2 ∷ poll_of sigint ∷ poll_of sighup ∷ []) daemon)
    ≡ dumped (codes "github.auth|ms\n")
      ∷ backend_cancelled 0
      ∷ backend_cancelled 1
      ∷ sampler_shut_down 0
      ∷ []
unfolding server_run metric_find city_hash32 slab_init push_node slab_alloc new_metric
effects_dump = refl

server_run-stops_example :
    (server_run assoc (poll_of sighup ∷ []) daemon ≡ none)
    × ((p : Poll) (after : List Poll)
        → ends p ≡ true
        → let d' =
            turns assoc ((poll_of sighup ∷ []) ++ (p ∷ [])) (record daemon { running = true }) in
          (server_run assoc ((poll_of sighup ∷ []) ++ (p ∷ after)) daemon
            ≡ some (record d' { effects = d'.effects ++ last_effects d' }, after))
          × (d'.running ≡ false))
server_run-stops_example = server_run-stops assoc (poll_of sighup ∷ []) daemon (refl, tt)
