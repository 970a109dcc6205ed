-- ===== src/Metric.antt =====
-- src/metric.h and the record and sample functions of src/metric.c. A metric is a record, the union
-- `as` a data type with a constructor for each of its members; the spin lock of a metric makes each
-- of the functions below one step.
pub mod Record
pub mod Means
pub mod Periods
pub mod Sampling
mod Tests
use Prim.Native.Nat.{bit_and}
use brubeck.Prelude.{
  ℕ, List, [], ◌∷◌, ◌++◌, Option, none, some, Bool, not, ◌==◌, if◌then◌else◌, ◌>>=◌, u8, u16,
  length,
}
use brubeck.Value.{Double}
use brubeck.Histogram
use brubeck.Histogram.{Histo, HistoSample, histo_push, histo_sample}
use brubeck.Histogram.Sorted.{Compare}

-- `enum brubeck_metric_t`
pub data MetricType : Type 0 where
  gauge meter counter histo timer internal_stats : MetricType

-- `BRUBECK_MOD_RELATIVE_VALUE`
abbrev pub relative_value : ℕ
relative_value = 1

abbrev pub expire_disabled : ℕ
expire_disabled = 0

abbrev pub expire_inactive : ℕ
expire_inactive = 1

abbrev pub expire_active : ℕ
expire_active = 2

-- The members of the union; `counter` has its value and its previous value, and
-- `other` is a pointer that is set or null.
pub data As (V : Type 0) : Type 0 where
  as_gauge : V → As V
  as_meter : V → As V
  as_counter : V → V → As V
  as_histogram : Histo V → As V
  as_other : Bool → As V

pub record Metric (V : Type 0) : Type 0 where
  pub key : List ℕ
  pub key_len : ℕ
  pub type : MetricType
  pub expire : ℕ
  pub as_ : As V

module _ {V : Type 0} ⦃d : Double V⦄ where
  -- The member that a metric of that type is used at, all of its bytes zero.
  abbrev pub zeroed : MetricType → As V
  zeroed MetricType.gauge = as_gauge (d.of_nat 0)
  zeroed MetricType.meter = as_meter (d.of_nat 0)
  zeroed MetricType.counter = as_counter (d.of_nat 0) (d.of_nat 0)
  zeroed MetricType.histo = as_histogram Histogram.empty
  zeroed MetricType.timer = as_histogram Histogram.empty
  zeroed MetricType.internal_stats = as_other Bool.false

  -- `new_metric`, once the memory is there.
  unfoldable pub new_metric : List ℕ → MetricType → Metric V
  new_metric key type = record {
    key = key;
    key_len = u16 (length key);
    type = type;
    expire = expire_active;
    as_ = zeroed type;
  }

  -- `none` is an access to a member of the union that the metric does not have.
  unfoldable pub gauge__record : As V → V → V → ℕ → Option (As V)
  gauge__record (as_gauge old) value freq mods =
      some (as_gauge (if bit_and mods relative_value == 0 then value else d.add old value))
  gauge__record _ value freq mods = none

  unfoldable pub meter__record : As V → V → V → ℕ → Option (As V)
  meter__record (as_meter old) value freq mods =
      let upsampled = d.mul value freq in some (as_meter (d.add old upsampled))
  meter__record _ value freq mods = none

  -- The increase over the previous value, or the value itself where the counter was reset.
  abbrev pub increase : V → V → V
  increase previous value = if d.le previous value then d.sub value previous else value

  unfoldable pub counter__record : As V → V → V → ℕ → Option (As V)
  counter__record (as_counter total previous) value freq mods =
      let upsampled = d.mul value freq in
      let total' =
        if d.lt (d.of_nat 0) previous then d.add total (increase previous upsampled) else total in
      some (as_counter total' upsampled)
  counter__record _ value freq mods = none

  unfoldable pub histogram__record : As V → V → V → ℕ → Option (As V)
  histogram__record (as_histogram h) value freq mods = some (as_histogram (histo_push h value freq))
  histogram__record _ value freq mods = none

  -- The column `record` of `_prototypes`; the entry of the internal statistics is a null pointer.
  unfoldable pub record_of : MetricType → Option (As V → V → V → ℕ → Option (As V))
  record_of MetricType.gauge = some gauge__record
  record_of MetricType.meter = some meter__record
  record_of MetricType.counter = some counter__record
  record_of MetricType.histo = some histogram__record
  record_of MetricType.timer = some histogram__record
  record_of MetricType.internal_stats = none

  -- `none` is the call through a null pointer.
  unfoldable pub metric_record : Metric V → V → V → ℕ → Option (Metric V)
  unfolding record_of gauge__record meter__record counter__record histogram__record
  metric_record m value freq mods = do
    handler ← record_of m.type
    as' ← handler m.as_ value freq mods
    some (record m { as_ = as' })
