-- ===== src/Heap/FreeList.antt =====
-- The free list of an IOMAGE heap (MsgVBHeap.cpp): boundary tags, unlinking, coalescing and
-- splitting. Offsets and sizes stay below 2^33, so their 64-bit sums are written as plain ones.
use msgcore.Prelude.{
  ℕ, zero, suc, ◌+◌, ◌-◌, ◌%◌, ◌^◌, Bool, true, false, ◌||◌, ◌&&◌, not, ltb, leb, ◌==◌, update,
  if◌then◌else◌,
}
use msgcore.Width.{
  AddrType, addr08, addr_limit, sizeof_hdr, same_addr, vbheap_min, foot_min, sizeof_foot,
}
use msgcore.Root.{Root, int_minus_one, neg_int}
use msgcore.Root
use msgcore.Heap.{
  Block, foot_magic, Heap, not_free, out_of_fuel, M, ◌>>=◌, ◌>>◌, pure, fail, get, modify, branch,
  when, with_root, is_free, is_addr, sizenn, block2phys, block_at, block_ptr, put_block, set_prev,
  set_next, init_block, bare, set_linked, clear_linked, clear_type, count_entry, mark_dirty,
}

-- A tag is written only on a free block that has room for one and that ends inside the image.
unfoldable pub stamp_foot : ℕ → Heap → Heap
stamp_foot a h =
    let b = h.blocks a in
    let n = sizenn b in
    if a == 0 || leb h.size_alloc a
    then h
    else if not (is_free b)
    then h
    else if ltb n (foot_min h.addr_type)
    then h
    else if ltb h.size_alloc (a + n)
    then h
    else record h { feet = update h.feet (a + n) (record { magic = foot_magic; size = n }) }

-- A free, linked header of the image's own width.
abbrev pub is_free_header : Heap → ℕ → Bool
is_free_header h p = let b = h.blocks p in is_addr b h.addr_type && b.alloc && b.linked && is_free b

-- The free block that ends at `a`, by its tag, or 0. The tag is believed only where the block that
-- it points back to agrees with it.
unfoldable pub prev_free : Heap → ℕ → ℕ
prev_free h a =
    let f = h.feet a in
    let p = a - f.size in
    if leb a (sizeof_hdr h.addr_type + sizeof_foot)
    then 0
    else if ltb h.size_alloc a
    then 0
    else if not (f.magic == foot_magic)
    then 0
    else if ltb f.size (foot_min h.addr_type) || leb a f.size
    then 0
    else if ltb p (sizeof_hdr h.addr_type)
    then 0
    else if not (is_free_header h p)
    then 0
    else if not (sizenn (h.blocks p) == f.size)
    then 0
    else p

-- The keys of the root that name the block are moved to a neighbour.
unfoldable pub isolate_keys : ℕ → Block → M (Unit {0})
isolate_keys a b = do
  r ← get (λ h. h.root)
  when (r.alloc == a) (with_root (λ r. Root.set_alloc r (if b.prev == 0 then b.next else b.prev)))
  when (r.free == a) (with_root (λ r. Root.set_free r (if b.prev == 0 then b.next else b.prev)))
  when (r.free_last == a)
      (with_root (λ r. Root.set_free_last r (if b.next == 0 then b.prev else b.next)))

-- The neighbours are linked to each other, and the block to nothing.
unfoldable pub isolate_links : ℕ → Block → M (Unit {0})
isolate_links a b = do
  when (not (b.prev == 0)) (do block2phys b.prev; set_next b.prev b.next; set_prev a 0)
  when (not (b.next == 0)) (do block2phys b.next; set_prev b.next b.prev; set_next a 0)

-- The block leaves the free count and the free size.
unfoldable pub isolate_count : ℕ → Block → M (Unit {0})
isolate_count a b = do
  clear_linked a
  clear_type a
  with_root (λ r. Root.set_free_size r (neg_int (sizenn b)) false)
  with_root (λ r. Root.set_free_items r int_minus_one false)
  count_entry int_minus_one
  mark_dirty

-- `P2PmsgHeap_IsolateIOMAGE`: takes a block out of the free list.
unfoldable pub isolate : ℕ → M (Unit {0})
isolate a = do b ← block_at a; isolate_keys a b; isolate_links a b; isolate_count a b

-- `nSizenn += nSizenn`, at the width.
abbrev pub add_size : Block → Block → Block
add_size b n = record b { size = (b.size + n.size) % addr_limit b.addr }

-- A free neighbour is unlinked and becomes part of the block; its header is wiped.
unfoldable pub swallow : ℕ → ℕ → Block → M Bool
swallow a next nb = do
  isolate next
  with_root (λ r. Root.set_free_size r (sizenn nb) false)
  put_block a (λ b. add_size b nb)
  put_block next (λ n. record n { addr = addr08; type = 0; alloc = false; linked = false })
  modify (stamp_foot a)
  pure true

-- One turn of `P2PmsgHeap_CollateIOMAGE`: whether it swallowed a neighbour, and the size if not.
unfoldable pub collate_step : AddrType → ℕ → M Bool
collate_step w a = do
  b ← get (λ h. h.blocks a)
  end ← get (λ h. h.size_alloc)
  let next = a + sizenn b
  branch (leb end next) (pure false) (do
    nb ← block_ptr next
    branch (not (same_addr w nb.addr) || (a == next))
        (do modify (λ h. record h { collate_corrupt = h.collate_corrupt + 1 }); pure false)
        (branch (not (is_free nb)) (do modify (stamp_foot a); pure false)
          (branch (sizenn nb == 0)
            (do modify (λ h. record h { collate_zero_size = h.collate_zero_size + 1 }); pure false)
            (swallow a next nb))))

unfoldable pub collate_loop : ℕ → AddrType → ℕ → M ℕ
collate_loop zero w a = λ h. out_of_fuel
collate_loop (suc fuel) w a =
    collate_step w a
    >>= elim [ true ↦ collate_loop fuel w a | false ↦ get λ h. sizenn (h.blocks a) ]

-- Merges the free blocks that follow a free block into it. Each turn makes the block larger, so an
-- image of n bytes takes fewer than n turns.
unfoldable pub collate : ℕ → M ℕ
unfolding collate_loop
collate a = do
  b ← block_ptr a
  when (not (is_free b)) (fail not_free)
  mark_dirty
  fuel ← get (λ h. h.size_alloc + 1)
  collate_loop fuel b.addr a

-- The whole block is taken.
unfoldable pub take_whole : ℕ → Block → M ℕ
take_whole a b = do
  isolate a
  with_root (λ r. Root.set_alloc_size r (sizenn b) false)
  with_root (λ r. Root.set_alloc_items r 1 false)
  pure (sizenn b)

-- The rest becomes a free block in the place of the old one.
unfoldable pub split_extra : ℕ → Block → ℕ → M (Unit {0})
split_extra e b extra = do
  block2phys e
  w ← get (λ h. h.addr_type)
  init_block e (bare w) extra
  set_next e b.next
  set_prev e b.prev
  clear_type e
  set_linked e

unfoldable pub split_count : ℕ → ℕ → ℕ → M (Unit {0})
split_count a e n = do
  with_root (λ r. Root.set_alloc_size r n false)
  with_root (λ r. Root.set_alloc_items r 1 false)
  with_root (λ r. Root.set_free_size r (neg_int n) false)
  r ← get (λ h. h.root)
  when (r.free == a) (with_root (λ r. Root.set_free r e))
  when (r.free_last == a) (with_root (λ r. Root.set_free_last r e))

unfoldable pub split_links : ℕ → Block → M (Unit {0})
split_links e b = do
  when (not (b.prev == 0)) (do block2phys b.prev; set_next b.prev e)
  when (not (b.next == 0)) (do block2phys b.next; set_prev b.next e)

-- `P2PmsgHeap_SplitAllocIOMAGE`: takes `n` bytes off a free block, or all of it where what is left
-- could hold no block. The result is the size that was taken.
unfoldable pub split_alloc : ℕ → ℕ → M ℕ
split_alloc a n = do
  b ← block_at a
  mark_dirty
  let extra = (sizenn b + 2 ^ 64 - n) % 2 ^ 64
  branch (ltb extra (vbheap_min b.addr)) (take_whole a b) (do
    split_extra (a + n) b extra
    split_count a (a + n) n
    split_links (a + n) b
    modify (stamp_foot (a + n))
    init_block a b n
    clear_linked a
    pure n)
