-- ===== src/Slab/Tests.antt =====
-- Runs of the allocator, and the theorems at concrete requests.
use brubeck.Prelude.{ℕ, ◌≡◌, refl, List, [], ◌∷◌, some, arith}
use brubeck.Slab.{Slab, slab_init, slab_alloc}
use brubeck.Slab.Bounds.{slab_init-IsValid}
use brubeck.Slab.Blocks.{alloc_all, Separates, alloc_all-Separates, Overruns, slab_alloc-Overruns}

abbrev nearly_full : Slab
nearly_full = record { nodes = record { alloc = 4000 } ∷ []; total_alloc = 4000 }

two_blocks :
    slab_alloc nearly_full 65
    ≡ some (
      record { node = 1; offset = 0 },
      record { nodes = record { alloc = 96 } ∷ record { alloc = 4000 } ∷ []; total_alloc = 4096 },
    )
unfolding slab_alloc
two_blocks = refl

abbrev requests : List ℕ
requests = 40 ∷ 4000 ∷ 100 ∷ []

alloc_all-Separates_example : Separates slab_init requests (alloc_all slab_init requests)
alloc_all-Separates_example = alloc_all-Separates slab_init requests (omega arith) slab_init-IsValid

-- A metric with a key of 4100 bytes.
slab_alloc-Overruns_example : Overruns nearly_full 4133 (slab_alloc nearly_full 4133)
slab_alloc-Overruns_example =
    slab_alloc-Overruns nearly_full 4133 (omega arith) (omega arith) (omega arith)
