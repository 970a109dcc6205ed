-- ===== src/Metric/Record.antt =====
-- What `brubeck_metric_record` of src/metric.c accumulates over a sampling period.
use mathlib.Core.Path.{subst}
use brubeck.Prelude.{
  ℕ, ◌≡◌, ◌≢◌, ◌∙◌, refl, sym, ap, List, [], ◌∷◌, ◌++◌, Option, none, some, true, false, arith, All,
  ◌==◌, if◌then◌else◌, ◌>>=◌,
}
use Prim.Native.Nat.{bit_and}
use brubeck.Value.{Double}
use brubeck.Histogram.Push.{push_all}
use brubeck.Metric.{
  MetricType, As, as_gauge, as_meter, as_counter, as_histogram, as_other, Metric, relative_value,
  record_of, metric_record,
}

-- The arguments of a call: the value, the sample frequency and the modifiers.
pub record Call (V : Type 0) : Type 0 where
  pub value : V
  pub freq : V
  pub mods : ℕ

-- The member of the union is the one that goes with the type.
abbrev pub HasMember : {V : Type 0} → MetricType → As V → Type 0
HasMember MetricType.gauge (as_gauge _) = Unit
HasMember MetricType.meter (as_meter _) = Unit
HasMember MetricType.counter (as_counter _ _) = Unit
HasMember MetricType.histo (as_histogram _) = Unit
HasMember MetricType.timer (as_histogram _) = Unit
HasMember MetricType.internal_stats (as_other _) = Unit
HasMember _ _ = ⊥

module _ {V : Type 0} ⦃d : Double V⦄ where
  unfoldable pub record_all : Metric V → List (Call V) → Option (Metric V)
  record_all m [] = some m
  record_all m (c ∷ cs) = metric_record m c.value c.freq c.mods >>= λ m'. record_all m' cs

  -- What the calls mean for each member, said without the metric.
  abbrev pub gauge_of : V → List (Call V) → V
  gauge_of v [] = v
  gauge_of v (c ∷ cs) =
      gauge_of (if bit_and c.mods relative_value == 0 then c.value else d.add v c.value) cs

  abbrev pub meter_of : V → List (Call V) → V
  meter_of v [] = v
  meter_of v (c ∷ cs) = meter_of (d.add v (d.mul c.value c.freq)) cs

  -- What a counter has grown by: a value below the previous one is that of a counter that was reset
  -- and counts whole.
  abbrev pub growth : V → V → V
  growth previous value = if d.le previous value then d.sub value previous else value

  abbrev pub counter_of : V → V → List (Call V) → As V
  counter_of total previous [] = as_counter total previous
  counter_of total previous (c ∷ cs) =
      let value = d.mul c.value c.freq in
      counter_of (if d.lt (d.of_nat 0) previous then d.add total (growth previous value) else total)
        value cs

  abbrev pub pushed : List (Call V) → List (V × V)
  pushed [] = []
  pushed (c ∷ cs) = (c.value, c.freq) ∷ pushed cs

  abbrev pub accumulated : As V → List (Call V) → As V
  accumulated (as_gauge v) cs = as_gauge (gauge_of v cs)
  accumulated (as_meter v) cs = as_meter (meter_of v cs)
  accumulated (as_counter t p) cs = counter_of t p cs
  accumulated (as_histogram h) cs = as_histogram (push_all h (pushed cs))
  accumulated (as_other p) cs = as_other p

  record_step :
      (m : Metric V) (c : Call V) (cs : List (Call V))
      → m.type ≢ MetricType.internal_stats
      → HasMember m.type m.as_
      → (as' : As V) × (metric_record m c.value c.freq c.mods ≡ some (record m { as_ = as' }))
        × HasMember m.type as'
        × (accumulated as' cs ≡ accumulated m.as_ (c ∷ cs))
  unfolding metric_record
  record_step m c cs h k = go m.type m.as_ h k
    where
      go :
          (type : MetricType) (as_ : As V)
          → type ≢ MetricType.internal_stats
          → HasMember type as_
          → let n = record m { type = type; as_ = as_ } in
            (as' : As V) × (metric_record n c.value c.freq c.mods ≡ some (record n { as_ = as' }))
            × HasMember type as'
            × (accumulated as' cs ≡ accumulated as_ (c ∷ cs))
      go MetricType.gauge (as_gauge v) h k = (_, refl, tt, refl)
      go MetricType.meter (as_meter v) h k = (_, refl, tt, refl)
      go MetricType.counter (as_counter t p) h k = (_, refl, tt, refl)
      go MetricType.histo (as_histogram x) h k = (_, refl, tt, refl)
      go MetricType.timer (as_histogram x) h k = (_, refl, tt, refl)
      go _ _ h k = ground arith

  accumulated-nil : (a : As V) → accumulated a [] ≡ a
  accumulated-nil (as_gauge v) = refl
  accumulated-nil (as_meter v) = refl
  accumulated-nil (as_counter t p) = refl
  accumulated-nil (as_histogram h) = refl
  accumulated-nil (as_other p) = refl

  pub accumulated-cons :
      (a : As V) (c : Call V) (cs : List (Call V))
      → accumulated a (c ∷ cs) ≡ accumulated (accumulated a (c ∷ [])) cs
  accumulated-cons (as_gauge v) c cs = refl
  accumulated-cons (as_meter v) c cs = refl
  accumulated-cons (as_counter t p) c cs = refl
  accumulated-cons (as_histogram h) c cs = refl
  accumulated-cons (as_other p) c cs = refl

  pub metric_record-accumulated :
      (m : Metric V) (c : Call V)
      → m.type ≢ MetricType.internal_stats
      → HasMember m.type m.as_
      → (metric_record m c.value c.freq c.mods
          ≡ some (record m { as_ = accumulated m.as_ (c ∷ []) }))
        × HasMember m.type (accumulated m.as_ (c ∷ []))
  metric_record-accumulated m c h k =
      let (as', e, member, same) = record_step m c [] h k in
      let whole : as' ≡ accumulated m.as_ (c ∷ []) = sym (accumulated-nil as') ∙ same in
      (e ∙ ap (λ a. some (record m { as_ = a })) whole, subst (HasMember m.type) whole member)

  -- Recording into a metric of any type but the internal one never fails. The key, the type and the
  -- state of expiry stay, and the union holds what the calls come to: for a gauge the last value
  -- with the relative ones since; for a meter the sum of the values, each times its frequency; for
  -- a counter the sum of the increases; for a histogram and a timer all the values.
  pub record_all-accumulated :
      (m : Metric V) (cs : List (Call V))
      → m.type ≢ MetricType.internal_stats
      → HasMember m.type m.as_
      → (record_all m cs ≡ some (record m { as_ = accumulated m.as_ cs }))
        × HasMember m.type (accumulated m.as_ cs)
  unfolding record_all
  record_all-accumulated m [] h k = rw (accumulated-nil m.as_) (refl, k)
  record_all-accumulated m (c ∷ cs) h k =
      let (as', e, member, same) = record_step m c cs h k in
      let rest = record_all-accumulated (record m { as_ = as' }) cs h member in rw (e, ← same) rest

  -- The metric of the internal statistics cannot be recorded into: the handler is a null pointer.
  pub record_all_internal :
      (m : Metric V) (c : Call V) (cs : List (Call V))
      → m.type ≡ MetricType.internal_stats
      → record_all m (c ∷ cs) ≡ none
  unfolding record_all metric_record
  record_all_internal m c cs h = rw (h, record_of)

  abbrev pub IsRelative : Call V → Type 0
  IsRelative c = (bit_and c.mods relative_value == 0) ≡ false

  abbrev pub add_all : V → List (Call V) → V
  add_all v [] = v
  add_all v (c ∷ cs) = add_all (d.add v c.value) cs

  pub gauge_of-relative :
      (v : V) (cs : List (Call V)) → All IsRelative cs → gauge_of v cs ≡ add_all v cs
  gauge_of-relative v [] h = refl
  gauge_of-relative v (c ∷ cs) (h, hs) = rw h (gauge_of-relative (d.add v c.value) cs hs)

  gauge_of-append :
      (v : V) (xs ys : List (Call V)) → gauge_of v (xs ++ ys) ≡ gauge_of (gauge_of v xs) ys
  gauge_of-append v [] ys = refl
  gauge_of-append v (x ∷ xs) ys =
      gauge_of-append (if bit_and x.mods relative_value == 0 then x.value else d.add v x.value) xs
        ys

  pub gauge_of-absolute :
      (old : V) (before : List (Call V)) (c : Call V) (after : List (Call V))
      → (bit_and c.mods relative_value == 0) ≡ true
      → All IsRelative after
      → gauge_of old (before ++ (c ∷ after)) ≡ add_all c.value after
  gauge_of-absolute old before c after h k =
      rw (gauge_of-append old before (c ∷ after), h) (gauge_of-relative c.value after k)

  -- A gauge is its last absolute value with the relative values recorded since, whatever was
  -- recorded before that.
  pub record_all-gauge :
      (m : Metric V) (old : V) (before : List (Call V)) (c : Call V) (after : List (Call V))
      → m.type ≡ MetricType.gauge
      → m.as_ ≡ as_gauge old
      → (bit_and c.mods relative_value == 0) ≡ true
      → All IsRelative after
      → record_all m (before ++ (c ∷ after))
        ≡ some (record m { as_ = as_gauge (add_all c.value after) })
  record_all-gauge m old before c after t e absolute relative =
      let calls = before ++ (c ∷ after) in
      let no_other : m.type ≢ MetricType.internal_stats = rw t (cc) in
      let member : HasMember m.type m.as_ = rw (t, e) tt in
      (record_all-accumulated m calls no_other member).0
      ∙ rw (e, gauge_of-absolute old before c after absolute relative)

  -- The values of a counter, each times its frequency.
  abbrev pub upsampled : Call V → V
  upsampled c = d.mul c.value c.freq

  abbrev pub last_value : V → List (Call V) → V
  last_value previous [] = previous
  last_value previous (c ∷ cs) = last_value (upsampled c) cs

  -- The sum of the increases from each value to the next; the first value after one that is not
  -- above zero counts for nothing.
  abbrev pub increases_from : V → V → List (Call V) → V
  increases_from total previous [] = total
  increases_from total previous (c ∷ cs) =
      if d.lt (d.of_nat 0) previous
      then increases_from (d.add total (growth previous (upsampled c))) (upsampled c) cs
      else increases_from total (upsampled c) cs

  abbrev pub increases : V → List (Call V) → V
  increases = increases_from (d.of_nat 0)

  pub counter_of-increases :
      (total previous : V) (cs : List (Call V))
      → counter_of total previous cs
        ≡ as_counter (increases_from total previous cs) (last_value previous cs)
  counter_of-increases total previous [] = refl
  counter_of-increases total previous (c ∷ cs) = ground (
    arith,
    counter_of-increases total (upsampled c) cs,
    counter_of-increases (d.add total (growth previous (upsampled c))) (upsampled c) cs,
  )
