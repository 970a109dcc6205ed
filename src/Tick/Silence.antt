-- ===== src/Tick/Silence.antt =====
-- The expiry of src/server.c and the turns of src/backend.c together: a metric that nobody sends any
-- more is left out of the reports.
use brubeck.Prelude.{
  ℕ, ◌-◌, ◌≤◌, ◌<◌, ◌≡◌, refl, List, [], some, true, false, arith, ltb, ◌>>=◌, get_elem?, set,
}
use brubeck.Value.{Double}
use brubeck.Stats.{InternalStats}
use brubeck.Histogram.Sorted.{Compare}
use brubeck.Metric.{Metric, expire_disabled}
use brubeck.Metric.Sampling.{metric_sample}
use brubeck.HashTable.{CkHt, IsTable}
use brubeck.Server.{Server}
use brubeck.Server.Valid.{IsValid}
use brubeck.Loop.Expiry.{passes, passes-Ages}
use brubeck.Tick.Reports.{sampled_one}

module _ {V T : Type 0} ⦃d : Double V⦄ (ck : CkHt T) (name : List ℕ)
    (qsort : Compare V → List V → List V) (freq : ℕ) where
  disabled :
      (i : ℕ) (m : Metric V) (store : List (Metric V)) (stats : InternalStats)
      → get_elem? store i ≡ some m
      → m.expire ≡ 0
      → sampled_one qsort freq i store stats
        ≡ some (record { report = []; store = store; stats = stats })
  unfolding sampled_one
  disabled i m store stats at e =
      let off : ltb expire_disabled m.expire ≡ false = ground arith in rw (at, off) refl

  enabled :
      (i : ℕ) (m : Metric V) (store : List (Metric V)) (stats : InternalStats)
      → get_elem? store i ≡ some m
      → 0 < m.expire
      → sampled_one qsort freq i store stats ≡ (do
        (report, m', stats') ← metric_sample qsort m freq stats
        some (record { report = report; store = set store i m'; stats = stats' }))
  unfolding sampled_one
  enabled i m store stats at e =
      let on : ltb expire_disabled m.expire ≡ true = ground arith in rw (at, on) refl

  -- The timer elapses `n` times on a valid server while no metric is found. Then a metric of its table
  -- that was `n` or less away from being disabled gives no report and is not changed by sampling;
  -- one that was further away is sampled as before, but for its expiry. For a table whose iteration
  -- meets each entry once.
  pub passes-silent :
      (n : ℕ) (s : Server V T) (k : List ℕ) (i : ℕ) (m : Metric V) (stats : InternalStats)
      → IsValid ck name s
      → IsTable ck
      → ck.get_spmc s.metrics k ≡ some i
      → get_elem? s.store i ≡ some m
      → let store = (passes ck name n s).store in
        (m.expire ≤ n
          → sampled_one qsort freq i store stats
            ≡ some (record { report = []; store = store; stats = stats }))
        × (n < m.expire
            → sampled_one qsort freq i store stats ≡ (do
              (report, m', stats') ←
                  metric_sample qsort (record m { expire = m.expire - n }) freq stats
              some (record { report = report; store = set store i m'; stats = stats' })))
  passes-silent n s k i m stats ok laws e at =
      let store = (passes ck name n s).store in
      let m' = record m { expire = m.expire - n } in
      let at' = (passes-Ages ck name n s ok laws).aged k i m e at in
      (
        λ h. disabled i m' store stats at' (omega arith),
        λ h. enabled i m' store stats at' (omega arith),
      )
