-- ===== src/Histogram.antt =====
-- src/histogram.c and src/histogram.h. The block that `values` points to is the list of its cells
-- that were written; `alloc` is its length in cells. `qsort` of the C library is a parameter.
pub mod Percentile
pub mod Rounding
pub mod Push
pub mod Sorted
pub mod InsertionSort
pub mod Reads
pub mod Sample
mod Tests
use brubeck.Prelude.{
  ℕ, zero, suc, ◌+◌, ◌-◌, ◌*◌, ◌^◌, List, [], ◌∷◌, ◌++◌, Option, none, some, ltb, ◌==◌, not,
  if◌then◌else◌, ◌>>=◌, u16, take, drop, get_elem?,
}
use Prim.Native.Nat.{Ordering}
use brubeck.Value.{Double}
use Percentile.{Rank, half, pc_75, pc_95, pc_98, pc_99, pc_999, irank}

abbrev pub ushrt_max : ℕ
ushrt_max = 65535

abbrev pub histo_init_size : ℕ
histo_init_size = 16

pub record Histo (V : Type 0) : Type 0 where
  pub values : List V
  pub count : ℕ
  pub alloc : ℕ
  pub size : ℕ

pub record HistoSample (V : Type 0) : Type 0 where
  pub sum : V
  pub min : V
  pub max : V
  pub mean : V
  pub median : V
  pub count : V
  pub p75 : V
  pub p95 : V
  pub p98 : V
  pub p99 : V
  pub p999 : V

-- `memset(…, 0, …)` of a metric.
abbrev pub empty : {V : Type 0} → Histo V
empty = record { values = []; count = 0; alloc = 0; size = 0 }

-- A write to the cell of that index: over a cell, or to the first one that was not written yet.
-- What lies further on is not modelled; `Push.IsValid` rules it out.
abbrev pub write : {V : Type 0} → List V → ℕ → V → List V
write [] i v = v ∷ []
write (x ∷ xs) zero v = v ∷ xs
write (x ∷ xs) (suc i) v = x ∷ write xs i v

-- The cells in use.
abbrev pub contents : {V : Type 0} → Histo V → List V
contents h = take h.size h.values

-- The new length of a full block: twice the old one, within 16 and 65535.
abbrev pub new_size : ℕ → ℕ
new_size alloc =
    let twice = alloc * 2 in
    let capped = if ltb ushrt_max twice then ushrt_max else twice in
    if ltb capped histo_init_size then histo_init_size else capped

module _ {V : Type 0} where
  -- `realloc` keeps the cells that fit.
  abbrev pub grow : Histo V → Histo V
  grow h =
      if new_size h.alloc == h.alloc
      then h
      else (let alloc = u16 (new_size h.alloc) in
          record h { alloc = alloc; values = take alloc h.values })

  -- `histo->values[histo->size++] = value`
  abbrev pub append : Histo V → V → Histo V
  append h v = record h { values = write h.values h.size v; size = u16 (h.size + 1) }

module _ {V : Type 0} ⦃d : Double V⦄ where
  abbrev pub add_count : Histo V → V → Histo V
  add_count h freq = record h { count = d.to_u32 (d.add (d.of_nat h.count) freq) }

  pub histo_push : Histo V → V → V → Histo V
  histo_push h v freq =
      let counted = add_count h freq in
      if h.size == h.alloc
      then (if h.size == ushrt_max then counted else append (grow counted) v)
      else append counted v

  -- -1, 0 and 1
  unfoldable pub value_cmp : V → V → Ordering
  value_cmp a b = if d.lt a b then Ordering.lt else if d.lt b a then Ordering.gt else Ordering.eq

  -- The loop over `values`, from a partial sum on.
  unfoldable pub sum_from : V → List V → V
  sum_from sum [] = sum
  sum_from sum (v ∷ vs) = sum_from (d.add sum v) vs

  unfoldable pub histo_sum : Histo V → V
  unfolding sum_from
  histo_sum h = sum_from (d.of_nat 0) (contents h)

  -- `none` is a read outside the cells that were written.
  unfoldable pub histo_percentile : Histo V → Rank → Option V
  histo_percentile h rank = get_elem? h.values (irank rank h.size - 1)

  -- `memset(sample, 0, …)`
  unfoldable pub zero_sample : HistoSample V
  zero_sample = record {
    sum = d.of_nat 0;
    min = d.of_nat 0;
    max = d.of_nat 0;
    mean = d.of_nat 0;
    median = d.of_nat 0;
    count = d.of_nat 0;
    p75 = d.of_nat 0;
    p95 = d.of_nat 0;
    p98 = d.of_nat 0;
    p99 = d.of_nat 0;
    p999 = d.of_nat 0;
  }

  module _ (qsort : (V → V → Ordering) → List V → List V) where
    unfoldable pub histo_sort : Histo V → Histo V
    histo_sort h = record h { values = qsort value_cmp (contents h) ++ drop h.size h.values }

    -- What is read of the sorted histogram.
    unfoldable pub sorted_sample : Histo V → Option (HistoSample V)
    unfolding histo_percentile
    sorted_sample h = do
      let total = histo_sum h
      low ← get_elem? h.values 0
      high ← get_elem? h.values (h.size - 1)
      median ← histo_percentile h half
      p75 ← histo_percentile h pc_75
      p95 ← histo_percentile h pc_95
      p98 ← histo_percentile h pc_98
      p99 ← histo_percentile h pc_99
      p999 ← histo_percentile h pc_999
      some (record {
        sum = total;
        min = low;
        max = high;
        mean = d.div total (d.of_nat h.size);
        median = median;
        count = d.of_nat h.count;
        p75 = p75;
        p95 = p95;
        p98 = p98;
        p99 = p99;
        p999 = p999;
      })

    pub histo_sample : Histo V → Option (HistoSample V × Histo V)
    histo_sample h =
        if h.size == 0
        then some (zero_sample, h)
        else (let sorted = histo_sort h in
            do sample ← sorted_sample sorted; some (sample, record sorted { size = 0; count = 0 }))
