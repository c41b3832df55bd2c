-- ===== src/Tests.antt =====
-- Concrete heaps, and the theorems at them.
mod Blocks
mod Items
mod Load
mod Names
mod Session
mod Vectors
use msgcore.Prelude.{
  inl, inr, ◌%◌, ◌&&◌, ◌↔◌, some, none, ℕ, ◌+◌, ◌≤◌, ◌<◌, ◌≡◌, refl, ◌⊎◌, true, false, [], ◌∷◌,
  arith, ◌==◌, if◌then◌else◌,
}
use msgcore.Width.{addr16}
use msgcore.Heap.{Block, Heap, ok, sizenn}
use msgcore.Heap.WellFormed.{IsWellFormed, IsBlock, arena, starts}
use msgcore.Heap.Isolate.{isolate-ok, Unlinks}
use msgcore.Heap.Create.Fresh.{Fresh}
use msgcore.Heap.Create.Shape.{create_iomage-IsWellFormed, Created}
use msgcore.Heap.Bounds.{
  addr2phys_chk, is_phys_span, chk_contained, is_contained_lump, addr2phys_chk_iff,
  is_phys_span_iff, chk_contained_iff, is_contained_lump-chk_contained,
}
use msgcore.Sync.{
  native, legacy, swapped, iomage_form, is_iomage, sync_form, sync_make, sync_addr, sync_gen_code,
  sync_gen_now, sync_make-iomage_form, sync_form-byte_swap, is_iomage_iff,
}
use msgcore.Heap.Collate.{Honest}
use msgcore.Heap.Alloc.Walk.{Walked, fit_walk-ok}

abbrev free_block : ℕ → ℕ → ℕ → Block
free_block n p q = record {
  addr = addr16;
  type = 0;
  alloc = true;
  linked = true;
  size = n;
  prev = p;
  next = q;
}

abbrev used_block : ℕ → Block
used_block n = record {
  addr = addr16;
  type = 1;
  alloc = true;
  linked = true;
  size = n;
  prev = 0;
  next = 0;
}

-- Two free blocks that touch, at 28 and 48, and a used one at 68, in an image of 88 bytes.
abbrev small_blocks : ℕ → Block
small_blocks q =
    if q == 28 then free_block 20 48 0 else if q == 48 then free_block 20 0 28 else used_block 20

abbrev small_heap : Heap
small_heap = record {
  root = record {
    addr = addr16;
    size = 20;
    alloc = 68;
    alloc_size = 20;
    alloc_items = 1;
    free = 48;
    free_last = 28;
    free_size = 40;
    free_items = 2;
  };
  blocks = small_blocks;
  feet = λ q. record { magic = 0; size = 0 };
  addr_type = addr16;
  size_used = 20;
  size_alloc = 88;
  size_max = 0xffff;
  vblock_min = 7;
  hi_wm = 88;
  free_entries = 2;
  dirty = false;
  collate_zero_size = 0;
  collate_corrupt = 0;
}

-- Where its used block stands.
abbrev used_at : ℕ
used_at = 68

small_heap-IsBlock :
    (a : ℕ)
    → starts (48 ∷ 28 ∷ []) (68 ∷ []) a ≡ true
    → IsBlock (arena small_heap) (48 ∷ 28 ∷ []) (68 ∷ []) a
unfolding sizenn
small_heap-IsBlock a s = record {
  beyond = ground arith;
  inside = ground arith;
  least = ground arith;
  width = ground arith;
  alloc = ground arith;
  exact = ground arith;
  followed = ground arith;
  apart = λ b t lt. ground arith;
}

small_heap-IsWellFormed : IsWellFormed (arena small_heap) (48 ∷ 28 ∷ []) (68 ∷ []) 0
unfolding sizenn
small_heap-IsWellFormed = record {
  small = omega arith;
  fits = omega arith;
  root_width = refl;
  block = small_heap-IsBlock;
  disjoint = λ a i. ground arith;
  listed = λ a i. ground arith;
  busy = λ a i ne. ground arith;
  chain = ground arith;
  distinct = ground arith;
  first = omega arith;
  free_size = refl;
  alloc_size = refl;
  free_items = refl;
  alloc_items = refl;
  conserved = refl;
}

sync_make-iomage_form_example :
    (iomage_form 0xA500_1234 0x5AFF_EDCB ≡ native)
    × (sync_addr 0xA500_1234 ≡ 1)
    × (sync_gen_code 0xA500_1234 ≡ sync_gen_now)
    × (0xA500_1234 % 0x100_0000 ≡ 0x1234)
    × (0xA500_1234 < 0x1_0000_0000)
unfolding sync_make
sync_make-iomage_form_example = sync_make-iomage_form 0x1234 addr16

addr2phys_chk_iff_example :
    ((addr2phys_chk 68 20 small_heap ≡ ok (some 68) small_heap) ↔ ((0 < 68) × (88 ≤ 88)))
    × ((addr2phys_chk 68 20 small_heap ≡ ok none small_heap) ↔ (used_at ≡ 0))
addr2phys_chk_iff_example = addr2phys_chk_iff small_heap 68 20 (omega arith)

-- No offset but those of the two free blocks reads as a free block's header.
small_heap-Honest : Honest small_heap (48 ∷ 28 ∷ [])
small_heap-Honest p e = ground arith
