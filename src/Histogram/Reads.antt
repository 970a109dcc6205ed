-- ===== src/Histogram/Reads.antt =====
-- The reads of `brubeck_histo_sample` in src/histogram.c lie inside the block, in whatever order
-- `qsort` left the values.
use brubeck.Prelude.{
  ℕ, ◌-◌, ◌<◌, ◌≡◌, refl, ◌∙◌, List, false, some, arith, length, get_elem?, get_elem?_total, drop,
  take-append_of_length, ◌==◌, length-append, length-drop, Bool-cases, inl, inr,
}
use brubeck.Value.{Double}
use brubeck.Histogram.{
  Histo, HistoSample, contents, value_cmp, sum_from, histo_percentile, histo_sort, sorted_sample,
  histo_sample, histo_sum, zero_sample,
}
use brubeck.Histogram.Percentile.{Rank, half, pc_75, pc_95, pc_98, pc_99, pc_999, irank}
use brubeck.Histogram.Rounding.{irank_bounds}
use brubeck.Histogram.Push.{IsValid, length-contents}
use brubeck.Histogram.Sorted.{get_elem?_append, Compare}

-- The values are sorted where they are: there are as many afterwards.
abbrev pub IsInPlace : {V : Type 0} → (Compare V → List V → List V) → Type 0
IsInPlace {V} qsort =
    (cmp : Compare V) (values : List V) → length (qsort cmp values) ≡ length values

module _ {V : Type 0} ⦃d : Double V⦄ (qsort : Compare V → List V → List V) (h : Histo V)
    (ok : IsValid h) (length-in_order : length (qsort value_cmp (contents h)) ≡ h.size)
    (full : 0 < h.size) where
  abbrev pub in_order : List V
  in_order = qsort value_cmp (contents h)

  -- A read below the size, by way of the block.
  pub cell :
      (i : ℕ)
      → i < h.size
      → (v : V) × (get_elem? (histo_sort qsort h).values i ≡ some v)
        × (get_elem? in_order i ≡ some v)
  unfolding histo_sort
  cell i below =
      let short : i < length in_order = omega (arith, length-in_order) in
      let (v, e) = get_elem?_total in_order i short in
      (v, get_elem?_append in_order (drop h.size h.values) i short ∙ e, e)

  abbrev pub index : Rank → ℕ
  index rank = irank rank h.size - 1

  pub index-lt : (rank : Rank) → index rank < h.size
  index-lt rank = omega (arith, irank_bounds rank h.size full)

  pub percentile :
      (rank : Rank)
      → (v : V) × (histo_percentile (histo_sort qsort h) rank ≡ some v)
        × (get_elem? in_order (index rank) ≡ some v)
  unfolding histo_percentile histo_sort
  percentile rank = cell (index rank) (index-lt rank)

  pub contents-histo_sort : contents (histo_sort qsort h) ≡ in_order
  unfolding histo_sort
  contents-histo_sort = take-append_of_length in_order (drop h.size h.values) h.size length-in_order

  pub size-histo_sort : (histo_sort qsort h).size ≡ h.size
  unfolding histo_sort
  size-histo_sort = refl

  pub count-histo_sort : (histo_sort qsort h).count ≡ h.count
  unfolding histo_sort
  count-histo_sort = refl

  pub last-lt : h.size - 1 < h.size
  last-lt = omega arith

  -- The sample that the reads make.
  abbrev pub summary : HistoSample V
  summary =
      let total = sum_from (d.of_nat 0) in_order in
      record {
        sum = total;
        min = (cell 0 full).0;
        max = (cell (h.size - 1) last-lt).0;
        mean = d.div total (d.of_nat h.size);
        median = (percentile half).0;
        count = d.of_nat h.count;
        p75 = (percentile pc_75).0;
        p95 = (percentile pc_95).0;
        p98 = (percentile pc_98).0;
        p99 = (percentile pc_99).0;
        p999 = (percentile pc_999).0;
      }

  sorted_sample_lem : sorted_sample qsort (histo_sort qsort h) ≡ some summary
  unfolding sorted_sample histo_sum
  sorted_sample_lem = rw (
    contents-histo_sort,
    (percentile half).1,
    (percentile pc_75).1,
    (percentile pc_95).1,
    (percentile pc_98).1,
    (percentile pc_99).1,
    (percentile pc_999).1,
    size-histo_sort,
    count-histo_sort,
    (cell 0 full).1,
    (cell (h.size - 1) last-lt).1,
  )

  -- The histogram that is left.
  abbrev pub emptied : Histo V
  emptied = record (histo_sort qsort h) { size = 0; count = 0 }

  pub histo_sample_lem : histo_sample qsort h ≡ some (summary, emptied)
  unfolding histo_sample
  histo_sample_lem =
      let occupied : (h.size == 0) ≡ false = ground arith in rw (occupied, sorted_sample_lem)

  pub emptied-IsValid : IsValid emptied
  unfolding histo_sort
  emptied-IsValid = omega (
    arith,
    length-append in_order (drop h.size h.values),
    length-in_order,
    length-drop h.size h.values,
    ok.written,
    ok.inside,
    ok.short,
  )

-- A valid histogram is sampled without a read outside of its block, and a valid one is left.
pub histo_sample-Succeeds :
    {V : Type 0} ⦃d : Double V⦄ (qsort : Compare V → List V → List V) (h : Histo V)
    → IsInPlace qsort
    → IsValid h
    → (s : HistoSample V) × (r : Histo V) × (histo_sample qsort h ≡ some (s, r)) × IsValid r
histo_sample-Succeeds qsort h in_place ok = elim (Bool-cases (h.size == 0)) [
  | inl idle ↦ (zero_sample, h, unfold histo_sample in rw idle refl, ok)
  | inr busy ↦
      let full : 0 < h.size = ground arith in
      let long = in_place value_cmp (contents h) ∙ length-contents h ok in
      (
        summary qsort h ok long full,
        emptied qsort h ok long full,
        histo_sample_lem qsort h ok long full,
        emptied-IsValid qsort h ok long full,
      )
]
