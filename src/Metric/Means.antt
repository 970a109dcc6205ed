-- ===== src/Metric/Means.antt =====
-- What `brubeck_metric_record` of src/metric.c leaves of the calls of a period, by the type of the
-- metric.
use mathlib.Core.Path.{subst}
use brubeck.Prelude.{
  ◌≡◌, ◌≢◌, refl, ap, sym, ◌∙◌, List, [], ◌∷◌, ◌++◌, some, true, All, map, ◌==◌, take,
}
use Prim.Native.Nat.{bit_and}
use brubeck.Value.{Double}
use brubeck.Histogram.{ushrt_max, contents}
use brubeck.Histogram.Push
use brubeck.Histogram.Push.{contents-push_all}
use brubeck.Metric.{
  MetricType, As, as_gauge, as_meter, as_counter, as_histogram, as_other, Metric, relative_value,
}
use brubeck.Metric.Record.{
  Call, HasMember, record_all, record_all-accumulated, accumulated, gauge_of, meter_of, pushed,
  IsRelative, add_all, gauge_of-relative, gauge_of-absolute, increases_from, last_value,
  counter_of-increases,
}

module _ {V : Type 0} ⦃d : Double V⦄ where
  abbrev pub IsAbsolute : Call V → Type 0
  IsAbsolute c = (bit_and c.mods relative_value == 0) ≡ true

  abbrev pub sum_from : V → List V → V
  sum_from v [] = v
  sum_from v (x ∷ xs) = sum_from (d.add v x) xs

  -- A gauge is the last absolute value with the relative ones behind it, or the old value with them
  -- where no other came; a meter is the sum of the values, each times its frequency; a counter has the
  -- increases and the last value; and a histogram has the first 65535 values, in order.
  abbrev pub Means : As V → List (Call V) → As V → Type 0
  Means (as_gauge v) cs (as_gauge v') =
      ((before : List (Call V)) (c : Call V) (after : List (Call V))
        → cs ≡ before ++ (c ∷ after)
        → IsAbsolute c
        → All IsRelative after
        → v' ≡ sum_from c.value (map (λ x. x.value) after))
      × (All IsRelative cs → v' ≡ sum_from v (map (λ x. x.value) cs))
  Means (as_meter v) cs (as_meter v') = v' ≡ sum_from v (map (λ x. d.mul x.value x.freq) cs)
  Means (as_counter total previous) cs (as_counter total' previous') =
      (total' ≡ increases_from total previous cs) × (previous' ≡ last_value previous cs)
  Means (as_histogram h) cs (as_histogram h') =
      Push.IsValid h
      → Push.IsValid h' × (contents h' ≡ take ushrt_max (contents h ++ map (λ x. x.value) cs))
  Means _ cs _ = ⊥

  add_all_lem : (v : V) (cs : List (Call V)) → add_all v cs ≡ sum_from v (map (λ x. x.value) cs)
  add_all_lem v [] = refl
  add_all_lem v (c ∷ cs) = add_all_lem (d.add v c.value) cs

  meter_of_lem :
      (v : V) (cs : List (Call V)) → meter_of v cs ≡ sum_from v (map (λ x. d.mul x.value x.freq) cs)
  meter_of_lem v [] = refl
  meter_of_lem v (c ∷ cs) = meter_of_lem (d.add v (d.mul c.value c.freq)) cs

  recorded_lem : (cs : List (Call V)) → Push.recorded (pushed cs) ≡ map (λ x. x.value) cs
  recorded_lem [] = refl
  recorded_lem (c ∷ cs) = ap (◌∷◌ c.value) (recorded_lem cs)

  accumulated-Means :
      (type : MetricType) (a : As V) (cs : List (Call V))
      → type ≢ MetricType.internal_stats
      → HasMember type a
      → Means a cs (accumulated a cs)
  accumulated-Means type (as_gauge v) cs ne h = (
    (λ before c after e absolute relative.
        ap (gauge_of v) e
        ∙ gauge_of-absolute v before c after absolute relative
        ∙ add_all_lem c.value after),
    λ relative. gauge_of-relative v cs relative ∙ add_all_lem v cs,
  )
  accumulated-Means type (as_meter v) cs ne h = meter_of_lem v cs
  accumulated-Means type (as_counter total previous) cs ne h =
      subst (Means (as_counter total previous) cs) (sym (counter_of-increases total previous cs))
        (refl, refl)
  accumulated-Means type (as_histogram x) cs ne h = λ ok.
      let (valid, all) = contents-push_all x (pushed cs) ok in
      (valid, all ∙ ap (λ vs. take ushrt_max (contents x ++ vs)) (recorded_lem cs))
  accumulated-Means MetricType.internal_stats (as_other p) cs ne h = absurd (ne refl)
  accumulated-Means _ (as_other p) cs ne h = absurd h

  -- Whatever is recorded into a metric of a client type, no call fails, and the key, the type and the
  -- state of expiry stay. A gauge is then the last absolute value with the relative ones behind it, or
  -- the old value with them where no other came; a meter the old value with all of them, each times its
  -- frequency; a counter has grown by the increases from each value to the next, where one below the
  -- previous counts whole and one after a value that is not above zero for nothing, and has the last
  -- value; and a valid histogram has the first 65535 of its values and those recorded, in order, and is
  -- valid.
  pub record_all-Means :
      (m : Metric V) (cs : List (Call V))
      → m.type ≢ MetricType.internal_stats
      → HasMember m.type m.as_
      → (a : As V) × (record_all m cs ≡ some (record m { as_ = a }))
        × HasMember m.type a
        × Means m.as_ cs a
  record_all-Means m cs ne h =
      let (e, member) = record_all-accumulated m cs ne h in
      (accumulated m.as_ cs, e, member, accumulated-Means m.type m.as_ cs ne h)
