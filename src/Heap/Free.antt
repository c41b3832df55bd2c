-- ===== src/Heap/Free.antt =====
-- Freeing a block of an IOMAGE heap (MsgVBHeap.cpp, `P2PmsgHeap_FreeIOMAGE` and `P2PmsgHeap_Free`).
pub mod Correct
pub mod Request
pub mod Theorem
use msgcore.Prelude.{ℕ, ◌+◌, ◌-◌, ◌%◌, ◌^◌, Bool, true, false, not, ◌==◌}
use msgcore.Root.{Root, neg_int, int_minus_one}
use msgcore.Root
use msgcore.Heap.{
  M, ◌>>=◌, ◌>>◌, fail, skip, get, modify, when, with_root, sizenn, block_at, block_ptr, block2phys,
  set_prev, set_next, clear_type, count_entry, mark_dirty, not_allocated,
}
use msgcore.Heap.FreeList.{prev_free, collate}
use msgcore.Heap.Validate.{valid_alloc}

-- The block goes to the head of the free list.
unfoldable pub push_free : ℕ → M (Unit {0})
push_free a = do
  set_prev a 0
  set_next a 0
  r ← get (λ h. h.root)
  when (not (r.free == 0)) (do set_next a r.free; block2phys r.free; set_prev r.free a)

-- The keys follow, and the block loses its type.
unfoldable pub count_free : ℕ → ℕ → M (Unit {0})
count_free a n = do
  with_root (λ r. Root.set_free r a)
  r ← get (λ h. h.root)
  when (r.free_last == 0) (with_root (λ r. Root.set_free_last r a))
  with_root (λ r. Root.set_free_size r n false)
  with_root (λ r. Root.set_alloc_size r (neg_int n) false)
  with_root (λ r. Root.set_free_items r 1 false)
  with_root (λ r. Root.set_alloc_items r int_minus_one false)
  count_entry 1
  clear_type a

-- Forwards from the block, then forwards from the free block that ends where it starts.
unfoldable pub collate_around : ℕ → M (Unit {0})
collate_around a = do
  collate a
  p ← get (λ h. prev_free h a)
  when (not (p == 0)) (do collate p; skip)

-- `P2PmsgHeap_FreeIOMAGE`
unfoldable pub free_iomage : Bool → ℕ → M (Unit {0})
free_iomage gate a = do
  valid ← valid_alloc gate true a
  when (not valid) (fail not_allocated)
  b ← block_at a
  push_free a
  count_free a (sizenn b)
  collate_around a
  mark_dirty

-- `P2PmsgHeap_Free` for an IOMAGE heap that counts no generations.
unfoldable pub free : Bool → ℕ → M (Unit {0})
free gate a = do
  b ← block_ptr a
  modify (λ h. record h { size_used = (h.size_used + 2 ^ 64 - sizenn b) % 2 ^ 64 })
  free_iomage gate a
