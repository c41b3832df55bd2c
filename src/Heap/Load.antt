-- ===== src/Heap/Load.antt =====
-- A heap over an image that was received (MsgVBHeap.cpp, the two `P2PmsgHeap_CreateIOMAGE` that take
-- an image): the checks of the buffer, the header and the root, and, inside the untrusted gate, the
-- judgement of the blocks.
pub mod Accepts
pub mod Blocks
pub mod Gate
pub mod Overhang
pub mod Unwalked
use msgcore.Prelude.{ℕ, ◌+◌, ◌-◌, ◌%◌, Bool, true, false, ◌||◌, not, ltb, leb, ◌==◌, if◌then◌else◌}
use msgcore.Width.{
  AddrType, addr08, addr16, addr32, addr64, sizeof_root, vbheap_max, vbheap_min, same_addr,
}
use msgcore.Root.{Root}
use msgcore.Sync.{SyncForm, swapped, gen, iomage_form, is_iomage, sync_addr}
use msgcore.Heap.{
  Block, Foot, Heap, Outcome, M, ok, throw, out_of_fuel, ◌>>=◌, ◌>>◌, pure, get, branch,
}
use msgcore.Heap.Grow.{check_arena_width}
use msgcore.Heap.Validate.{valid_iomage, valid_vblocks, valid_alloc}

-- The bytes of an image: the two synchronisation words, the root, and what would be read as a header
-- or a boundary tag at each offset.
pub record Image : Type 0 where
  pub sync₁ : ℕ
  pub sync₂ : ℕ
  pub root : Root
  pub blocks : ℕ → Block
  pub feet : ℕ → Foot

-- The throws, named for their messages.
pub data Refusal : Type 0 where
  smaller_than_header byte_order exceeds_buffer unknown_generation invalid_image : Refusal
  past_width no_root root_contradicts corrupt : Refusal

-- `undecided` is no outcome of the code.
pub data Loaded : Type 0 where
  loaded : Heap → Loaded
  refused : Refusal → Loaded
  undecided : Loaded

abbrev pub is_swapped : SyncForm → Bool
is_swapped swapped = true
is_swapped _ = false

abbrev pub is_gen : SyncForm → Bool
is_gen gen = true
is_gen _ = false

-- The two bits of the width.
abbrev pub width_of : ℕ → AddrType
width_of n = if n == 0 then addr08 else if n == 1 then addr16 else if n == 2 then addr32 else addr64

unfoldable pub declared : Image → ℕ
declared i = i.sync₁ % 0x100_0000

unfoldable pub declared_width : Image → AddrType
declared_width i = width_of (sync_addr i.sync₁)

-- The free bytes come off the used ones, unless there are more of them.
unfoldable pub live_bytes : Image → ℕ
live_bytes i =
    let used = declared i - 8 in if leb i.root.free_size used then used - i.root.free_size else used

unfoldable pub handle : Image → Heap
handle i = record {
  root = i.root;
  blocks = i.blocks;
  feet = i.feet;
  addr_type = declared_width i;
  size_used = live_bytes i;
  size_alloc = declared i;
  size_max = vbheap_max (declared_width i);
  vblock_min = vbheap_min (declared_width i);
  hi_wm = declared i;
  free_entries = 0;
  dirty = false;
  collate_zero_size = 0;
  collate_corrupt = 0;
}

-- The overload without a length. Its walks over the blocks are assertions.
unfoldable pub create_loaded : Image → Loaded
create_loaded i =
    if is_swapped (iomage_form i.sync₁ i.sync₂)
    then refused byte_order
    else if is_gen (iomage_form i.sync₁ i.sync₂)
    then refused unknown_generation
    else if not (is_iomage i.sync₁ i.sync₂) || leb (declared i) 8
    then refused invalid_image
    else if not (check_arena_width (declared_width i) (declared i))
    then refused past_width
    else if ltb (declared i) (8 + sizeof_root (declared_width i))
    then refused no_root
    else if not (same_addr i.root.addr (declared_width i))
    then refused root_contradicts
    else loaded (handle i)

-- The three questions of the gate, each asked if the ones before it were answered.
unfoldable pub judge : M Bool
judge = do
  free_list ← valid_iomage true
  branch (not free_list) (pure false) (do
    blocks ← valid_vblocks true
    branch (not blocks) (pure false) (do
      alloc ← get (λ h. h.root.alloc)
      branch (alloc == 0) (pure true) (valid_alloc true true alloc)))

abbrev pub verdict : Outcome Bool → Loaded
verdict (ok true h) = loaded h
verdict (ok false h) = refused corrupt
verdict (throw e h) = refused corrupt
verdict out_of_fuel = undecided

-- The image, once the header is accepted, is judged.
abbrev pub verdicts : Loaded → Loaded
verdicts (loaded h) = verdict (judge h)
verdicts (refused r) = refused r
verdicts undecided = undecided

unfoldable pub load_image : Image → ℕ → Loaded
load_image i buffer_len =
    if ltb buffer_len 8
    then refused smaller_than_header
    else if is_swapped (iomage_form i.sync₁ i.sync₂)
    then refused byte_order
    else if ltb buffer_len (declared i)
    then refused exceeds_buffer
    else verdicts (create_loaded i)
