-- ===== src/Heap/Load/Blocks.antt =====
-- What the gate's walk over all blocks has established of an accepted image.
use msgcore.Prelude.{ℕ, ◌+◌, ◌≤◌, ◌<◌, ◌≡◌, true, Option, ltb}
use msgcore.Heap.{Heap, ok, sizenn, is_free, is_addr}
use msgcore.Heap.Validate.{Tally, valid_free, block_walk, block_fits, diag}

-- Stepping from block to block by their sizes leads from one offset to another.
pub data Reaches (h : Heap) (q : ℕ) : ℕ → Type 0 where
  here : Reaches h q q
  step : {a : ℕ} → a < h.size_alloc → Reaches h q (a + sizenn (h.blocks a)) → Reaches h q a

-- A block whose header lies in the image and is of its width, allocated or on the free list with
-- consistent links, and whose size is neither zero nor more than the whole image.
pub record SoundBlock (h : Heap) (a : ℕ) : Type 0 where
  pub fits : block_fits h a ≡ true
  pub linked : (h.blocks a).linked ≡ true
  pub alloc : (h.blocks a).alloc ≡ true
  pub width : is_addr (h.blocks a) h.addr_type ≡ true
  pub size : (0 < sizenn (h.blocks a)) × (sizenn (h.blocks a) ≤ h.size_alloc)
  pub free : is_free (h.blocks a) ≡ true → valid_free h a ≡ true

-- The counts that the walk begins with.
abbrev start_tally : Heap → Tally
start_tally h = record {
  free_entries = 0;
  free_size = 0;
  alloc_entries = 0;
  alloc_size = 0;
  result = diag true (ltb h.root.free_size 200_000_000) true;
}

abbrev Walks : Heap → Option Tally → Type 0
Walks h o = block_walk (h.size_alloc + 1) true (8 + h.root.size) (start_tally h) h ≡ ok o h
