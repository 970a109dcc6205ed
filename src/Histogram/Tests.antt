-- ===== src/Histogram/Tests.antt =====
-- Runs of the histogram at whole values, as in tests/histogram.c, and the theorems at concrete
-- histograms.
use brubeck.Prelude.{ℕ, ◌≡◌, ◌≤◌, refl, List, [], ◌∷◌, ◌++◌, some, arith, take}
use brubeck.Value.Whole.{whole, whole-IsOrdered}
use brubeck.Histogram.{
  Histo, HistoSample, contents, ushrt_max, histo_push, histo_sample, histo_sort, sorted_sample,
  histo_sum, value_cmp,
}
use brubeck.Histogram.Percentile.{half, pc_999, irank, to_single, round_from, single, nearest}
use brubeck.Histogram.Rounding.{irank_bounds}
use brubeck.Histogram.Push.{IsValid, push_all, recorded, contents-push_all}
use brubeck.Histogram.Sample.{IsSummary, histo_sample-IsSummary}
use brubeck.Histogram.InsertionSort.{insertion_sort, insertion_sort-IsQsort}

-- The median of 128 values is the 64th, and the 99.9th percentile of 60000 is not the last.
some_ranks : (irank half 128 ≡ 64) × (irank pc_999 60000 ≡ 59940) × (irank pc_999 1 ≡ 1)
unfolding irank to_single round_from single nearest
some_ranks = (refl, refl, refl)

abbrev three : Histo ℕ
three = record { values = 5 ∷ 3 ∷ 9 ∷ []; count = 30; alloc = 16; size = 3 }

abbrev full_block : Histo ℕ
full_block = record { values = 1 ∷ 2 ∷ []; count = 2; alloc = 2; size = 2 }

-- A block of two cells grows to sixteen.
grows :
    histo_push full_block 7 10
    ≡ record { values = 1 ∷ 2 ∷ 7 ∷ []; count = 12; alloc = 16; size = 3 }
unfolding histo_push
grows = refl

sampled :
    histo_sample insertion_sort three
    ≡ some (
      record {
        sum = 17;
        min = 3;
        max = 9;
        mean = 5;
        median = 5;
        count = 30;
        p75 = 5;
        p95 = 9;
        p98 = 9;
        p99 = 9;
        p999 = 9;
      },
      record { values = 3 ∷ 5 ∷ 9 ∷ []; count = 0; alloc = 16; size = 0 },
    )
unfolding histo_sample histo_sort sorted_sample histo_sum value_cmp insertion_sort irank to_single
    round_from single nearest
sampled = refl

irank_bounds_example : (1 ≤ irank pc_999 500) × (irank pc_999 500 ≤ 500)
irank_bounds_example = irank_bounds pc_999 500 (omega arith)

abbrev period : List (ℕ × ℕ)
period = (4, 1) ∷ (2, 10) ∷ []

contents-push_all_example :
    IsValid (push_all three period)
    × (contents (push_all three period) ≡ take ushrt_max (contents three ++ recorded period))
contents-push_all_example = contents-push_all three period (omega arith)

histo_sample-IsSummary_example :
    (s : HistoSample ℕ) × (r : Histo ℕ) × (histo_sample insertion_sort three ≡ some (s, r))
    × IsSummary insertion_sort three s
    × IsValid r
    × (r.size ≡ 0)
    × (r.count ≡ 0)
    × (r.alloc ≡ 16)
histo_sample-IsSummary_example =
    histo_sample-IsSummary insertion_sort whole-IsOrdered (insertion_sort-IsQsort ℕ) three
      (omega arith) (refl, (refl, (refl, tt))) (omega arith)
