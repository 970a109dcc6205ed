-- ===== src/Histogram/Sample.antt =====
-- `brubeck_histo_sample` of src/histogram.c: what it reports, and what it leaves.
use mathlib.Core.Bool.{Bool-set}
use mathlib.Core.List.{Mem, Perm}
use mathlib.Core.List.Perm
use brubeck.Prelude.{ℕ, ◌-◌, ◌≤◌, ◌<◌, ◌≡◌, refl, ◌∙◌, List, some, arith, length, All, get_elem?}
use brubeck.Value.{Double, IsNumber, ◌≼◌, IsOrdered}
use brubeck.Histogram.{
  Histo, HistoSample, contents, value_cmp, sum_from, histo_percentile, histo_sort, histo_sample,
}
use brubeck.Histogram.Reads
use brubeck.Histogram.Percentile.{Rank, half, pc_75, pc_95, pc_98, pc_99, pc_999, irank, single}
use brubeck.Histogram.Rounding.{irank_bounds, irank_mono}
use brubeck.Histogram.Push.{IsValid, length-contents}
use brubeck.Histogram.Sorted.{
  All-of_mem, IsConsistent, Compare, IsQsort, Ascending, All-mem, length-perm, mem-get_elem?,
  value_cmp-IsConsistent, get_elem?_mono, All-le_of_last, All-first_le,
}

module _ {V : Type 0} ⦃d : Double V⦄ where
  -- What a sample says of the values recorded: the extremes bound them all, each percentile is one
  -- of them, the percentiles rise from the minimum to the maximum, and the rest is computed from
  -- them in ascending order.
  pub record IsSummary (qsort : Compare V → List V → List V) (h : Histo V) (s : HistoSample V)
      : Type 0 where
    pub min_le : (v : V) → Mem v (contents h) → s.min ≼ v
    pub le_max : (v : V) → Mem v (contents h) → v ≼ s.max
    pub min_mem : Mem s.min (contents h)
    pub max_mem : Mem s.max (contents h)
    pub median_mem : Mem s.median (contents h)
    pub p75_mem : Mem s.p75 (contents h)
    pub p95_mem : Mem s.p95 (contents h)
    pub p98_mem : Mem s.p98 (contents h)
    pub p99_mem : Mem s.p99 (contents h)
    pub p999_mem : Mem s.p999 (contents h)
    pub rising :
        (s.min ≼ s.median)
        × (s.median ≼ s.p75)
        × (s.p75 ≼ s.p95)
        × (s.p95 ≼ s.p98)
        × (s.p98 ≼ s.p99)
        × (s.p99 ≼ s.p999)
        × (s.p999 ≼ s.max)
    pub sum : s.sum ≡ sum_from (d.of_nat 0) (qsort value_cmp (contents h))
    pub mean : s.mean ≡ d.div s.sum (d.of_nat h.size)
    pub count : s.count ≡ d.of_nat h.count

module _ {V : Type 0} ⦃d : Double V⦄ (qsort : Compare V → List V → List V) (laws : IsOrdered V)
    (sorts : IsQsort qsort) (h : Histo V) (ok : IsValid h) (numbers : All IsNumber (contents h))
    (full : 0 < h.size) where
  abbrev in_order : List V
  in_order = qsort value_cmp (contents h)

  consistent : IsConsistent value_cmp (contents h)
  consistent = value_cmp-IsConsistent laws (contents h) numbers

  permuted : Perm in_order (contents h)
  permuted = sorts.perm value_cmp (contents h) consistent

  ascending : Ascending value_cmp in_order
  ascending = sorts.ascending value_cmp (contents h) consistent

  length-in_order : length in_order ≡ h.size
  length-in_order = length-perm permuted ∙ length-contents h ok

  abbrev cell :
      (i : ℕ)
      → i < h.size
      → (v : V) × (get_elem? (histo_sort qsort h).values i ≡ some v)
        × (get_elem? in_order i ≡ some v)
  cell = Reads.cell qsort h ok length-in_order full

  abbrev percentile :
      (rank : Rank)
      → (v : V) × (histo_percentile (histo_sort qsort h) rank ≡ some v)
        × (get_elem? in_order (irank rank h.size - 1) ≡ some v)
  percentile = Reads.percentile qsort h ok length-in_order full

  abbrev index : Rank → ℕ
  index rank = irank rank h.size - 1

  abbrev summary : HistoSample V
  summary = Reads.summary qsort h ok length-in_order full

  in_order_numbers : All IsNumber in_order
  in_order_numbers =
      All-of_mem in_order
        (λ v m. All-mem (λ v. Bool-set _ _) (contents h) v numbers ((Perm.mem_iff permuted).0 m))

  half_le : single half ≤ single pc_75
  unfolding single
  half_le = omega arith

  p75_le : single pc_75 ≤ single pc_95
  unfolding single
  p75_le = omega arith

  p95_le : single pc_95 ≤ single pc_98
  unfolding single
  p95_le = omega arith

  p98_le : single pc_98 ≤ single pc_99
  unfolding single
  p98_le = omega arith

  p99_le : single pc_99 ≤ single pc_999
  unfolding single
  p99_le = omega arith

  -- Of two reads, the one at the higher index is not smaller.
  climbs :
      (i j : ℕ) {a b : V}
      → i ≤ j
      → get_elem? in_order i ≡ some a
      → get_elem? in_order j ≡ some b
      → a ≼ b
  climbs i j le p q = get_elem?_mono laws in_order i j _ _ in_order_numbers ascending le p q

  ranks_climb :
      (r q : Rank) {a b : V}
      → single r ≤ single q
      → get_elem? in_order (index r) ≡ some a
      → get_elem? in_order (index q) ≡ some b
      → a ≼ b
  ranks_climb r q le = climbs (index r) (index q) (omega (arith, irank_mono r q h.size le))

  recorded_mem : (i : ℕ) {v : V} → get_elem? in_order i ≡ some v → Mem v (contents h)
  recorded_mem i e = (Perm.mem_iff permuted).0 (mem-get_elem? in_order i _ e)

  summary-IsSummary : IsSummary qsort h summary
  summary-IsSummary =
      let least = (cell 0 full).2 in
      let greatest = (cell (h.size - 1) (Reads.last-lt qsort h ok length-in_order full)).2 in
      let low = All-first_le laws in_order _ in_order_numbers ascending least in
      let high =
        All-le_of_last laws in_order _ (h.size - 1) in_order_numbers ascending
          (omega (arith, length-in_order)) greatest in
      let at = λ (rank : Rank). (percentile rank).2 in
      record {
        min_le = λ v m. All-mem (λ v. Bool-set _ _) in_order v low ((Perm.mem_iff permuted).1 m);
        le_max = λ v m. All-mem (λ v. Bool-set _ _) in_order v high ((Perm.mem_iff permuted).1 m);
        min_mem = recorded_mem 0 least;
        max_mem = recorded_mem (h.size - 1) greatest;
        median_mem = recorded_mem (index half) (at half);
        p75_mem = recorded_mem (index pc_75) (at pc_75);
        p95_mem = recorded_mem (index pc_95) (at pc_95);
        p98_mem = recorded_mem (index pc_98) (at pc_98);
        p99_mem = recorded_mem (index pc_99) (at pc_99);
        p999_mem = recorded_mem (index pc_999) (at pc_999);
        rising = (
          climbs 0 (index half) (omega arith) least (at half),
          ranks_climb half pc_75 half_le (at half) (at pc_75),
          ranks_climb pc_75 pc_95 p75_le (at pc_75) (at pc_95),
          ranks_climb pc_95 pc_98 p95_le (at pc_95) (at pc_98),
          ranks_climb pc_98 pc_99 p98_le (at pc_98) (at pc_99),
          ranks_climb pc_99 pc_999 p99_le (at pc_99) (at pc_999),
          climbs (index pc_999) (h.size - 1) (omega (arith, irank_bounds pc_999 h.size full))
              (at pc_999) greatest,
        );
        sum = refl;
        mean = refl;
        count = refl;
      }

  -- A valid histogram that is not empty and holds no NaN, with an order on numbers and a `qsort` that
  -- keeps its contract: no read leaves the block, the sample is a summary of the contents, and the
  -- histogram that is left is empty, valid and keeps its block.
  pub histo_sample-IsSummary :
      (s : HistoSample V) × (r : Histo V) × (histo_sample qsort h ≡ some (s, r))
      × IsSummary qsort h s
      × IsValid r
      × (r.size ≡ 0)
      × (r.count ≡ 0)
      × (r.alloc ≡ h.alloc)
  unfolding histo_sort
  histo_sample-IsSummary = (
    summary,
    Reads.emptied qsort h ok length-in_order full,
    Reads.histo_sample_lem qsort h ok length-in_order full,
    summary-IsSummary,
    Reads.emptied-IsValid qsort h ok length-in_order full,
    refl,
    refl,
    refl,
  )
