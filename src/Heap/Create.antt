-- ===== src/Heap/Create.antt =====
-- A new image heap (MsgVBHeap.cpp, `P2PmsgHeap_InitIOMAGE` and `P2PmsgHeap_CreateIOMAGE`).
pub mod Fresh
pub mod Shape
use msgcore.Prelude.{
  ℕ, ◌+◌, ◌-◌, ◌%◌, ◌^◌, Bool, true, false, ◌||◌, not, Option, none, some, ltb, ◌==◌, if◌then◌else◌,
}
use msgcore.Width.{AddrType, addr08, sizeof_root, vbheap_max, vbheap_min}
use msgcore.Root.{Root}
use msgcore.Root
use msgcore.Heap.{
  Block, Foot, Heap, Outcome, M, ok, ◌>>=◌, ◌>>◌, pure, get, modify, with_root, bare, init_block,
  put_block, set_linked, clear_type,
}
use msgcore.Heap.Grow.{check_create_width}

-- `P2PmsgHeap_InitIOMAGE`, for an image of `n` bytes whose root was initialised: what follows the
-- root is one free block.
unfoldable pub init_iomage : ℕ → AddrType → M (Unit {0})
init_iomage n w = do
  with_root (λ r. Root.set_free r (8 + sizeof_root w))
  with_root (λ r. Root.set_free_last r (8 + sizeof_root w))
  with_root (λ r. Root.set_free_size r ((n + 2 ^ 64 - (8 + sizeof_root w)) % 2 ^ 64) true)
  with_root (λ r. Root.set_free_items r 1 true)
  r ← get (λ h. h.root)
  init_block (8 + sizeof_root w) (bare w) r.free_size
  set_linked (8 + sizeof_root w)
  put_block (8 + sizeof_root w) (λ b. record b { alloc = true })
  clear_type (8 + sizeof_root w)

abbrev pub round_up : ℕ → ℕ
round_up n = n + (8 - n % 8) % 8

-- The handle as it is before the image is initialised: ZeroMemory leaves `nFreeEntries` at 0.
abbrev pub blank : AddrType → ℕ → ℕ → Root → Heap
blank w n max r = record {
  root = r;
  blocks = λ q. record (bare addr08) { size = 0 };
  feet = λ q. record { magic = 0; size = 0 };
  addr_type = w;
  size_used = 0;
  size_alloc = n;
  size_max = max;
  vblock_min = vbheap_min w;
  hi_wm = round_up n;
  free_entries = 0;
  dirty = true;
  collate_zero_size = 0;
  collate_corrupt = 0;
}

-- `P2PmsgHeap_CreateIOMAGE ( uAddrType, nSizeInitial, nSizeMax )`; `none` is a throw, of its own or
-- of the image's initialisation. Eight bytes are added to the initial size, and the image that is
-- initialised is that rounded up to a multiple of eight.
unfoldable pub create_iomage : AddrType → ℕ → ℕ → Option Heap
create_iomage w initial max =
    let max' = if max == 0 then vbheap_max w else max in
    let n = initial + 8 in
    if not (check_create_width w)
    then none
    else if ltb max' initial
    then none
    else if ltb (vbheap_max w) max'
    then none
    else elim (Root.init w 0) [
      | none ↦ none
      | some r ↦ elim (init_iomage (round_up n) w (blank w n max' r)) [ ok t h ↦ some h | _ ↦ none ]
    ]
