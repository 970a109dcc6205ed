-- ===== src/Slab/Bounds.antt =====
-- What a valid slab is, and where the blocks lie that `brubeck_slab_alloc` of src/slab.c hands out.
use brubeck.Prelude.{
  ℕ, ◌+◌, ◌%◌, ◌≤◌, ◌<◌, ◌≡◌, List, [], ◌∷◌, Option, none, some, arith, length, All, u64,
}
use brubeck.Slab.{
  Node, Slab, Pointer, node_size, push_node, slab_size, round_up, slab_init, slab_alloc,
}

abbrev pub IsGood : Node → Type 0
IsGood n = (n.alloc ≤ node_size) × (n.alloc % slab_size ≡ 0)

abbrev pub used : List Node → ℕ
used [] = 0
used (n ∷ ns) = n.alloc + used ns

-- There is a current node, no node is overfull, and `total_alloc` is what the nodes gave out.
pub record IsValid (s : Slab) : Type 0 where
  pub current : 0 < length s.nodes
  pub good : All IsGood s.nodes
  pub total : s.total_alloc ≡ u64 (used s.nodes)

-- What `brubeck_slab_init` makes is valid.
pub slab_init-IsValid : IsValid slab_init
unfolding slab_init push_node
slab_init-IsValid = omega arith

-- The outcome of an allocation: the block lies inside the heap of a node, on a slab boundary, is at
-- least as long as asked, and the slab stays valid.
pub record IsServed (s : Slab) (need : ℕ) (p : Pointer) (t : Slab) : Type 0 where
  pub aligned : p.offset % slab_size ≡ 0
  pub inside : p.offset + round_up need ≤ node_size
  pub enough : need ≤ round_up need
  pub slack : round_up need < need + slab_size
  pub valid : IsValid t
  pub total : t.total_alloc ≡ u64 (s.total_alloc + round_up need)

abbrev pub Serves : Slab → ℕ → Option (Pointer × Slab) → Type 0
Serves s need none = ⊥
Serves s need (some (p, t)) = IsServed s need p t

slab_alloc_nodes :
    (nodes : List Node) (total need : ℕ)
    → need ≤ node_size
    → let s : Slab = record { nodes = nodes; total_alloc = total } in
      IsValid s → Serves s need (slab_alloc s need)
unfolding slab_alloc
slab_alloc_nodes [] total need h v = absurd (omega arith)
slab_alloc_nodes (n ∷ older) total need h v = ground arith

-- From a valid slab a request that fits a node is served: the block lies inside the current node, on
-- a slab boundary, it is as long as the request rounded up, and the slab is valid again.
pub slab_alloc-IsServed :
    (s : Slab) (need : ℕ) → need ≤ node_size → IsValid s → Serves s need (slab_alloc s need)
slab_alloc-IsServed s need h v = slab_alloc_nodes s.nodes s.total_alloc need h v
