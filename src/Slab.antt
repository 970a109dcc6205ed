-- ===== src/Slab.antt =====
-- The slab allocator of src/slab.c and src/slab.h. The chain of nodes is a list, the current node
-- first; a node's number is the count of the nodes that were pushed before it. `xmalloc` stops the
-- program where `malloc` fails, and the mutex makes a call atomic.
pub mod Bounds
pub mod Blocks
mod Tests
use brubeck.Prelude.{
  ℕ, ◌+◌, ◌*◌, ◌/◌, ◌-◌, ◌^◌, List, [], ◌∷◌, Option, none, some, length, ltb, if◌then◌else◌, u64,
}

abbrev pub slab_size : ℕ
slab_size = 32

abbrev pub slabs_per_node : ℕ
slabs_per_node = 128

abbrev pub node_size : ℕ
node_size = slab_size * (slabs_per_node - 1)

-- `next` and `alloc` come before the heap of a node.
abbrev pub node_header : ℕ
node_header = 16

-- What `push_node` asks of `malloc` leaves this much for the heap.
abbrev pub heap_size : ℕ
heap_size = slab_size * slabs_per_node - node_header

pub record Node : Type 0 where
  pub alloc : ℕ

pub record Slab : Type 0 where
  pub nodes : List Node
  pub total_alloc : ℕ

-- An address in the heap of a node.
pub record Pointer : Type 0 where
  pub node : ℕ
  pub offset : ℕ

unfoldable pub push_node : Slab → Slab
push_node s = record s { nodes = record { alloc = 0 } ∷ s.nodes }

abbrev pub uninitialised : Slab
uninitialised = record { nodes = []; total_alloc = 0 }

unfoldable pub slab_init : Slab
slab_init = push_node uninitialised

-- `(need + SLAB_SIZE - 1) & ~(SLAB_SIZE - 1)`: the mask clears the five low bits.
abbrev pub round_up : ℕ → ℕ
round_up need = u64 (need + slab_size - 1) / 2 ^ 5 * 2 ^ 5

-- The current node hands out its next bytes.
unfoldable pub bump : ℕ → Slab → Option (Pointer × Slab)
bump need s = elim s.nodes [
  | [] ↦ none
  | n ∷ older ↦ some (
    record { node = length older; offset = n.alloc },
    record {
      nodes = record { alloc = u64 (n.alloc + need) } ∷ older;
      total_alloc = u64 (s.total_alloc + need);
    },
  )
]

-- `none` is the read through a null `current` of a slab that was not initialised.
unfoldable pub slab_alloc : Slab → ℕ → Option (Pointer × Slab)
unfolding bump push_node
slab_alloc s size = elim s.nodes [
  | [] ↦ none
  | n ∷ older ↦
      let need = round_up size in
      if ltb node_size (u64 (n.alloc + need)) then bump need (push_node s) else bump need s
]
