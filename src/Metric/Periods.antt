-- ===== src/Metric/Periods.antt =====
-- Recorders and the sampler of one metric of src/metric.c, in any order: the spin lock of the metric
-- makes each call one step.
use mathlib.Core.List.{append-nil, append_assoc}
use brubeck.Prelude.{ℕ, ◌≡◌, refl, ap, sym, ◌∙◌, List, [], ◌∷◌, ◌++◌, Option, some, map, ◌>>=◌}
use brubeck.Value.{Double}
use brubeck.Stats.{InternalStats}
use brubeck.Histogram.Sorted.{Compare}
use brubeck.Metric.{MetricType, Metric, as_meter, metric_record}
use brubeck.Metric.Record.{Call, upsampled}
use brubeck.Metric.Means.{sum_from}
use brubeck.Metric.Sampling.{Report, metric_sample}

-- A call of a recorder, or one of the backend's thread.
pub data Step (V : Type 0) : Type 0 where
  record_call : Call V → Step V
  sample : Step V

module _ {V : Type 0} where
  -- The calls of the recorders, in order.
  abbrev pub calls_of : List (Step V) → List (Call V)
  calls_of [] = []
  calls_of (record_call c ∷ steps) = c ∷ calls_of steps
  calls_of (sample ∷ steps) = calls_of steps

  -- The calls up to each sample since the one before, where `since` are those of the first period so
  -- far; and the calls after the last sample.
  abbrev pub periods : List (Call V) → List (Step V) → List (List (Call V))
  periods since [] = []
  periods since (record_call c ∷ steps) = periods (since ++ (c ∷ [])) steps
  periods since (sample ∷ steps) = since ∷ periods [] steps

  abbrev pub pending : List (Call V) → List (Step V) → List (Call V)
  pending since [] = since
  pending since (record_call c ∷ steps) = pending (since ++ (c ∷ [])) steps
  pending since (sample ∷ steps) = pending [] steps

  abbrev pub all_of : List (List (Call V)) → List (Call V)
  all_of [] = []
  all_of (p ∷ ps) = p ++ all_of ps

  -- Every call is in one period.
  all_of-periods :
      (since : List (Call V)) (steps : List (Step V))
      → all_of (periods since steps) ++ pending since steps ≡ since ++ calls_of steps
  all_of-periods since [] = sym (append-nil since)
  all_of-periods since (record_call c ∷ steps) =
      all_of-periods (since ++ (c ∷ [])) steps ∙ append_assoc since (c ∷ []) (calls_of steps)
  all_of-periods since (sample ∷ steps) =
      append_assoc since (all_of (periods [] steps)) (pending [] steps)
      ∙ ap (λ cs. since ++ cs) (all_of-periods [] steps)

module _ {V : Type 0} ⦃d : Double V⦄ where
  -- What a meter comes to by some calls.
  abbrev pub total : List (Call V) → V
  total calls = sum_from (d.of_nat 0) (map (upsampled {V = V}) calls)

  sum_from-append_one :
      (v : V) (calls : List (Call V)) (c : Call V)
      → d.add (sum_from v (map (upsampled {V = V}) calls)) (upsampled c)
        ≡ sum_from v (map (upsampled {V = V}) (calls ++ (c ∷ [])))
  sum_from-append_one v [] c = refl
  sum_from-append_one v (x ∷ calls) c = sum_from-append_one (d.add v (upsampled x)) calls c

  abbrev at : Metric V → V → Metric V
  at m v = record m { as_ = as_meter v }

  abbrev reports_of : Metric V → List (List (Call V)) → Report V
  reports_of m ps = map (λ p. (m.key, total p)) ps

module _ {V : Type 0} ⦃d : Double V⦄ (qsort : Compare V → List V → List V) (freq : ℕ)
    (stats : InternalStats) where
  -- The steps, with all that the backend is given; the statistics are those of another metric.
  unfoldable pub run : List (Step V) → Metric V → Option (Report V × Metric V)
  run [] m = some ([], m)
  run (record_call c ∷ steps) m = metric_record m c.value c.freq c.mods >>= λ m'. run steps m'
  run (sample ∷ steps) m = metric_sample qsort m freq stats >>= λ (report, m', _).
      run steps m' >>= λ (reports, m''). some (report ++ reports, m'')

  record_meter :
      (m : Metric V) (v : V) (c : Call V)
      → m.type ≡ MetricType.meter
      → metric_record (at m v) c.value c.freq c.mods ≡ some (at m (d.add v (upsampled c)))
  unfolding metric_record
  record_meter m v c t = rw t refl

  sample_meter :
      (m : Metric V) (v : V)
      → m.type ≡ MetricType.meter
      → metric_sample qsort (at m v) freq stats ≡ some ((m.key, v) ∷ [], at m (d.of_nat 0), stats)
  unfolding metric_sample
  sample_meter m v t = rw t refl

  run_from :
      (steps : List (Step V)) (m : Metric V) (since : List (Call V))
      → m.type ≡ MetricType.meter
      → run steps (at m (total since))
        ≡ some (reports_of m (periods since steps), at m (total (pending since steps)))
  unfolding run
  run_from [] m since t = refl
  run_from (record_call c ∷ steps) m since t =
      ap (λ r. r >>= λ m'. run steps m') (record_meter m (total since) c t)
      ∙ ap (λ v. run steps (at m v)) (sum_from-append_one (d.of_nat 0) since c)
      ∙ run_from steps m (since ++ (c ∷ [])) t
  run_from (sample ∷ steps) m since t =
      rw (sample_meter m (total since) t, run_from steps m [] t) refl

  -- However the calls of recorders and of the backend follow one another, from a meter at zero on: no
  -- call fails; each sample reports the key with the sum of the values recorded since the one before,
  -- each times its frequency, and what was recorded after the last stays in the meter; and these
  -- periods one after the other are all the calls, so that none is lost or counted twice.
  pub run-periods :
      (steps : List (Step V)) (m : Metric V)
      → m.type ≡ MetricType.meter
      → m.as_ ≡ as_meter (d.of_nat 0)
      → (run steps m
          ≡ some (
            map (λ p. (m.key, total p)) (periods [] steps),
            record m { as_ = as_meter (total (pending [] steps)) },
          ))
        × (all_of (periods [] steps) ++ pending [] steps ≡ calls_of steps)
  run-periods steps m t e = (
    ap (λ a. run steps (record m { as_ = a })) e ∙ run_from steps m [] t,
    all_of-periods [] steps,
  )
