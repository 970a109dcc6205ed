-- ===== src/Loop.antt =====
-- The loop of `brubeck_server_run` in src/server.c. What a call of `poll` and the reads behind it
-- gave is the list that the loop goes through; the title of the process is not modelled.
pub mod Expiry
pub mod Stop
pub mod Tests
use brubeck.Prelude.{
  ℕ, suc, ◌-◌, List, [], ◌∷◌, ◌++◌, Option, none, some, Bool, true, false, not, ◌&&◌, if◌then◌else◌,
  ltb, length, get_elem?, alter, codes, map,
}
use brubeck.Metric.{MetricType, Metric, expire_disabled}
use brubeck.HashTable.{CkHt, hashtable_foreach}
use brubeck.Server.{Server}

-- The counters of `struct brubeck_sampler`, and whether it has a function for its shutdown.
pub record Sampler : Type 0 where
  pub inflow : ℕ
  pub current_flow : ℕ
  pub shutdown : Bool

abbrev flowed : Sampler → Sampler
flowed sampler = record sampler { current_flow = sampler.inflow; inflow = 0 }

abbrev pub update_flows : List Sampler → List Sampler
update_flows samplers = map flowed samplers

unfoldable pub expire_metric : {V : Type 0} → Metric V → Metric V
expire_metric mt =
    if ltb expire_disabled mt.expire then record mt { expire = mt.expire - 1 } else mt

abbrev metric_name : MetricType → List ℕ
metric_name MetricType.gauge = codes "g"
metric_name MetricType.meter = codes "c"
metric_name MetricType.counter = codes "C"
metric_name MetricType.histo = codes "h"
metric_name MetricType.timer = codes "ms"
metric_name MetricType.internal_stats = codes "internal"

-- What is printed.
unfoldable pub dump_metric : {V : Type 0} → Metric V → List ℕ
dump_metric mt = mt.key ++ (b'|' ∷ metric_name mt.type) ++ (b'\n' ∷ [])

module _ {V T : Type 0} (ck : CkHt T) where
  -- The pass over the table when the timer has elapsed.
  unfoldable pub expire_metrics : Server V T → Server V T
  unfolding hashtable_foreach expire_metric
  expire_metrics s = record s {
    store = hashtable_foreach ck s.metrics (λ id store. alter store id expire_metric) s.store;
  }

  abbrev dump_one : List (Metric V) → ℕ → List ℕ → List ℕ
  dump_one store id out = elim (get_elem? store id) [ none ↦ out | some m ↦ out ++ dump_metric m ]

  -- The file, once it is open.
  unfoldable pub dump_all_metrics : Server V T → List ℕ
  unfolding hashtable_foreach dump_metric
  dump_all_metrics s = hashtable_foreach ck s.metrics (dump_one s.store) []

pub data Signal : Type 0 where
  sighup sigusr2 sigint sigterm other_signal : Signal

-- What `revents` and the read of a descriptor gave: whether it has input, whether the read was as
-- long as was asked, and the number of the signal where there is one.
pub record TimerFd : Type 0 where
  pub pollin : Bool
  pub whole : Bool

pub record SignalFd : Type 0 where
  pub pollin : Bool
  pub whole : Bool
  pub signo : Signal

-- A call of `poll`; `opens` says whether the file of a dump could be opened.
pub record Poll : Type 0 where
  pub failed : Bool
  pub signal : SignalFd
  pub update : TimerFd
  pub expire : TimerFd
  pub opens : Bool

abbrev pub timer_elapsed : TimerFd → Bool
timer_elapsed fd = if fd.pollin then fd.whole else false

-- `none` is -1.
abbrev pub signal_triggered : SignalFd → Option Signal
signal_triggered fd = if fd.pollin then (if fd.whole then some fd.signo else none) else none

-- What the loop does to the world outside.
pub data Effect : Type 0 where
  log_reopened : Effect
  dump_failed : Effect
  dumped : List ℕ → Effect
  backend_cancelled : ℕ → Effect
  sampler_shut_down : ℕ → Effect

-- `expires` is `fd_expire >= 0`, and `dump_path` whether there is one.
pub record Daemon (V T : Type 0) : Type 0 where
  pub server : Server V T
  pub running : Bool
  pub expires : Bool
  pub dump_path : Bool
  pub samplers : List Sampler
  pub effects : List Effect

abbrev emit : {V T : Type 0} → Daemon V T → Effect → Daemon V T
emit d e = record d { effects = d.effects ++ (e ∷ []) }

-- The effects of the two loops behind it, from a number on.
abbrev pub cancel_backends : ℕ → List (List ℕ) → List Effect
cancel_backends i [] = []
cancel_backends i (b ∷ bs) = backend_cancelled i ∷ cancel_backends (suc i) bs

abbrev pub shut_down_samplers : ℕ → List Sampler → List Effect
shut_down_samplers i [] = []
shut_down_samplers i (x ∷ xs) =
    if x.shutdown
    then sampler_shut_down i ∷ shut_down_samplers (suc i) xs
    else shut_down_samplers (suc i) xs

unfoldable pub on_update : {V T : Type 0} → Bool → Daemon V T → Daemon V T
on_update elapsed d = if elapsed then record d { samplers = update_flows d.samplers } else d

abbrev pub shut_down : {V T : Type 0} → Daemon V T → Daemon V T
shut_down d = record d {
  effects = d.effects ++ cancel_backends 0 d.server.backends ++ shut_down_samplers 0 d.samplers;
}

abbrev pub stopped :
    {V T : Type 0} → Option (Daemon V T × List Poll) → Option (Daemon V T × List Poll)
stopped none = none
stopped (some (d, ps)) = some (shut_down d, ps)

module _ {V T : Type 0} (ck : CkHt T) where
  -- The switch.
  unfoldable pub on_signal : Option Signal → Bool → Daemon V T → Daemon V T
  unfolding dump_all_metrics
  on_signal none opens d = d
  on_signal (some sighup) opens d = emit d log_reopened
  on_signal (some sigusr2) opens d =
      emit d (if d.dump_path && opens then dumped (dump_all_metrics ck d.server) else dump_failed)
  on_signal (some sigint) opens d = record d { running = false }
  on_signal (some sigterm) opens d = record d { running = false }
  on_signal (some other_signal) opens d = d

  unfoldable pub on_expire : Bool → Daemon V T → Daemon V T
  unfolding expire_metrics
  on_expire elapsed d = if elapsed then record d { server = expire_metrics ck d.server } else d

  -- The body of the loop. The third descriptor is polled only if metrics expire.
  unfoldable pub turn : Poll → Daemon V T → Daemon V T
  unfolding on_signal on_update on_expire
  turn p d =
      if p.failed
      then d
      else (let d₁ = on_signal (signal_triggered p.signal) p.opens d in
          let d₂ = on_update (timer_elapsed p.update) d₁ in
          on_expire (d.expires && timer_elapsed p.expire) d₂)

  -- The loop; `none` waits for another call of `poll`.
  unfoldable pub run_loop : List Poll → Daemon V T → Option (Daemon V T × List Poll)
  unfolding turn
  run_loop [] d = if d.running then none else some (d, [])
  run_loop (p ∷ ps) d =
      let rest = run_loop ps (turn p d) in if d.running then rest else some (d, p ∷ ps)

  unfoldable pub server_run : List Poll → Daemon V T → Option (Daemon V T × List Poll)
  unfolding run_loop
  server_run polls d = stopped (run_loop polls (record d { running = true }))
