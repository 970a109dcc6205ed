-- ===== src/Slab/Blocks.antt =====
-- Many allocations from one slab of src/slab.c: no two blocks share a byte. And the request that no
-- node can hold.
use brubeck.Prelude.{
  ℕ, ◌+◌, ◌^◌, ◌≤◌, ◌<◌, ◌≡◌, ◌≢◌, ◌⊎◌, inl, inr, ap, refl, List, [], ◌∷◌, Option, none, some,
  arith, length, map, All, ◌==◌, if◌then◌else◌, Option-cases,
}
use brubeck.Slab.{Node, Slab, Pointer, node_size, heap_size, round_up, slab_alloc}
use brubeck.Slab.Bounds.{IsValid, Serves, slab_alloc-IsServed}

-- The bytes from `offset` to `offset + size` of a node, as many as were asked for.
pub record Block : Type 0 where
  pub node : ℕ
  pub offset : ℕ
  pub size : ℕ

abbrev block : Pointer → ℕ → Block
block p need = record { node = p.node; offset = p.offset; size = need }

-- How much the node of that number has given out.
abbrev alloc_of : List Node → ℕ → ℕ
alloc_of [] k = 0
alloc_of (n ∷ older) k = if k == length older then n.alloc else alloc_of older k

-- The block is among what the slab has given out.
abbrev pub IsLive : Slab → Block → Type 0
IsLive s b = (b.node < length s.nodes) × (b.offset + b.size ≤ alloc_of s.nodes b.node)

abbrev pub Disjoint : Block → Block → Type 0
Disjoint a b = (a.node ≢ b.node) ⊎ (a.offset + a.size ≤ b.offset) ⊎ (b.offset + b.size ≤ a.offset)

abbrev Takes : Slab → ℕ → Option (Pointer × Slab) → Type 0
Takes s need none = ⊥
Takes s need (some (p, t)) =
    IsLive t (block p need) × ((b : Block) → IsLive s b → IsLive t b × Disjoint b (block p need))

slab_alloc_nodes :
    (nodes : List Node) (total need : ℕ)
    → need ≤ node_size
    → let s : Slab = record { nodes = nodes; total_alloc = total } in
      IsValid s → Takes s need (slab_alloc s need)
unfolding slab_alloc
slab_alloc_nodes [] total need h v = absurd (omega arith)
slab_alloc_nodes (n ∷ older) total need h v = ground arith

slab_alloc-Takes :
    (s : Slab) (need : ℕ) → need ≤ node_size → IsValid s → Takes s need (slab_alloc s need)
slab_alloc-Takes s need h v = slab_alloc_nodes s.nodes s.total_alloc need h v

-- The blocks of a row of requests, in order, and the slab after them.
pub alloc_all : Slab → List ℕ → Option (List Block × Slab)
alloc_all s [] = some ([], s)
alloc_all s (need ∷ needs) = elim (slab_alloc s need) [
  | none ↦ none
  | some (p, t) ↦ elim (alloc_all t needs) [
    | none ↦ none
    | some (bs, u) ↦ some (block p need ∷ bs, u)
  ]
]

abbrev pub Apart : List Block → Type 0
Apart [] = Unit
Apart (b ∷ bs) = All (Disjoint b) bs × Apart bs

abbrev pub Separates : Slab → List ℕ → Option (List Block × Slab) → Type 0
Separates s needs none = ⊥
Separates s needs (some (bs, u)) =
    (map (λ b. b.size) bs ≡ needs)
    × Apart bs
    × ((b : Block) → IsLive s b → All (Disjoint b) bs)
    × IsValid u

-- Requests that each fit a node all succeed, whatever their number; the blocks are pairwise disjoint
-- and disjoint from every block that the slab had given out before, and the slab stays valid.
pub alloc_all-Separates :
    (s : Slab) (needs : List ℕ)
    → All (λ need. need ≤ node_size) needs
    → IsValid s
    → Separates s needs (alloc_all s needs)
unfolding alloc_all
alloc_all-Separates s [] h v = (refl, tt, (λ b l. tt), v)
alloc_all-Separates s (need ∷ needs) (h, hs) v =
    let served = slab_alloc-IsServed s need h v in
    let takes = slab_alloc-Takes s need h v in
    elim (Option-cases (slab_alloc s need)) [
      | inl e ↦ absurd (rw e at takes)
      | inr ((p, t), e) ↦
          let taken : Takes s need (some (p, t)) = rw e at takes in
          let ok : Serves s need (some (p, t)) = rw e at served in
          rw (e, Separates, alloc_all)
            (after p t needs (alloc_all t needs) taken (alloc_all-Separates t needs hs ok.valid))
    ]
  where
    after :
        (p : Pointer) (t : Slab) (needs : List ℕ) (r : Option (List Block × Slab))
        → Takes s need (some (p, t))
        → Separates t needs r
        → Separates s
            (need ∷ needs)
            (elim r [ none ↦ none | some (bs, u) ↦ some (block p need ∷ bs, u) ])
    after p t needs none taken rest = rest
    after p t needs (some (bs, u)) taken rest = (
      ap (◌∷◌ need) rest.0,
      (rest.2 (block p need) taken.0, rest.1),
      (λ b live. ((taken.1 b live).1, rest.2 b (taken.1 b live).0)),
      rest.3,
    )

abbrev pub Overruns : Slab → ℕ → Option (Pointer × Slab) → Type 0
Overruns s need none = ⊥
Overruns s need (some (p, t)) =
    (p.node ≡ length s.nodes)
    × (p.offset ≡ 0)
    × (t.nodes ≡ record { alloc = round_up need } ∷ s.nodes)
    × (heap_size < p.offset + round_up need)

slab_alloc_nodes-Overruns :
    (nodes : List Node) (total need : ℕ)
    → heap_size < need
    → need ≤ 2 ^ 63
    → let s : Slab = record { nodes = nodes; total_alloc = total } in
      IsValid s → Overruns s need (slab_alloc s need)
unfolding slab_alloc
slab_alloc_nodes-Overruns [] total need h k v = absurd (omega arith)
slab_alloc_nodes-Overruns (n ∷ older) total need h k v = ground arith

-- From a valid slab a request past the heap of a node (and of at most 2 ^ 63 bytes) does not fail: it
-- is served from the start of a fresh node, as a block that is longer than the node's memory.
pub slab_alloc-Overruns :
    (s : Slab) (need : ℕ)
    → heap_size < need
    → need ≤ 2 ^ 63
    → IsValid s
    → Overruns s need (slab_alloc s need)
slab_alloc-Overruns s need h k v = slab_alloc_nodes-Overruns s.nodes s.total_alloc need h k v
