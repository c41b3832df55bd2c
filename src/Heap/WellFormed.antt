-- ===== src/Heap/WellFormed.antt =====
-- The well-formed IOMAGE heap: its blocks tile the image from the end of the root to its end, the
-- free ones are doubly linked from the root, and the root's counters are those of the blocks.
use msgcore.Prelude.{ℕ, ◌+◌, ◌≤◌, ◌<◌, ◌≡◌, ◌≢◌, ◌⊎◌, Bool, true, false, ◌||◌, List, has, length}
use msgcore.Width.{AddrType, addr_limit, vbheap_min, sizeof_root}
use msgcore.Root.{Root}
use msgcore.Heap.{Block, Heap, is_free, sizenn}
use msgcore.Heap.Chain.{Chain, total, IsDistinct}

-- The part of the state that the invariant speaks of.
pub record Arena : Type 0 where
  pub root : Root
  pub blocks : ℕ → Block
  pub addr_type : AddrType
  pub size_alloc : ℕ

abbrev pub arena : Heap → Arena
arena h = record {
  root = h.root;
  blocks = h.blocks;
  addr_type = h.addr_type;
  size_alloc = h.size_alloc;
}

-- Where the first block starts: after `oSync` and the root.
abbrev pub first_block : Arena → ℕ
first_block h = 8 + sizeof_root h.addr_type

-- A block starts at `a`: the free ones and the others.
abbrev pub starts : List ℕ → List ℕ → ℕ → Bool
starts fl al a = has a fl || has a al

-- A block lies inside the image, is of the image's width, ends where the next one starts or the
-- image ends, and no other starts inside it.
pub record IsBlock (h : Arena) (fl al : List ℕ) (a : ℕ) : Type 0 where
  pub beyond : first_block h ≤ a
  pub inside : a + (h.blocks a).size ≤ h.size_alloc
  pub least : vbheap_min h.addr_type ≤ (h.blocks a).size
  pub width : (h.blocks a).addr ≡ h.addr_type
  pub alloc : (h.blocks a).alloc ≡ true
  pub exact : sizenn (h.blocks a) ≡ (h.blocks a).size
  pub followed :
      (a + (h.blocks a).size ≡ h.size_alloc) ⊎ (starts fl al (a + (h.blocks a).size) ≡ true)
  pub apart : (b : ℕ) → starts fl al b ≡ true → a < b → a + (h.blocks a).size ≤ b

-- `fl` is the free list in its order, `al` the allocated blocks. `pending` is an allocated block
-- that has no type yet, or 0.
pub record IsWellFormed (h : Arena) (fl al : List ℕ) (pending : ℕ) : Type 0 where
  pub small : h.size_alloc < 0x8000_0000
  pub fits : h.size_alloc < addr_limit h.addr_type
  pub root_width : h.root.addr ≡ h.addr_type
  pub block : (a : ℕ) → starts fl al a ≡ true → IsBlock h fl al a
  pub disjoint : (a : ℕ) → has a fl ≡ true → has a al ≡ false
  pub listed : (a : ℕ) → has a fl ≡ true → ((h.blocks a).type ≡ 0) × ((h.blocks a).linked ≡ true)
  pub busy : (a : ℕ) → has a al ≡ true → a ≢ pending → is_free (h.blocks a) ≡ false
  pub chain : Chain h.blocks 0 h.root.free fl h.root.free_last
  pub distinct : IsDistinct al
  pub first : h.root.alloc < h.size_alloc
  pub free_size : h.root.free_size ≡ total h.blocks fl
  pub alloc_size : h.root.alloc_size ≡ total h.blocks al
  pub free_items : h.root.free_items ≡ length fl
  pub alloc_items : h.root.alloc_items ≡ length al
  pub conserved : first_block h + total h.blocks fl + total h.blocks al ≡ h.size_alloc
