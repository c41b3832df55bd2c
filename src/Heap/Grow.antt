-- ===== src/Heap/Grow.antt =====
-- Growth of an IOMAGE arena (MsgVBHeap.cpp). The grown tail is zeroed.
use msgcore.Prelude.{
  ℕ, ◌+◌, ◌-◌, ◌*◌, ◌/◌, Bool, true, false, ◌&&◌, not, Option, none, some, ltb, leb, ◌==◌,
  if◌then◌else◌,
}
use msgcore.Width.{AddrType, addr08, vbheap_max}
use msgcore.Root.{Root}
use msgcore.Root
use msgcore.Heap.{
  Heap, M, ◌>>=◌, ◌>>◌, pure, fail, get, modify, when, with_root, block2phys, block_ptr, bare,
  init_block, set_prev, set_next, set_linked, clear_type, exceeds_max, count_entry,
}
use msgcore.Heap.FreeList.{stamp_foot}
use msgcore.Heap.Validate.{valid_iomage}

unfoldable pub arena_room : Heap → ℕ
arena_room h = h.size_max - h.size_alloc

-- `none` is the throw. The need must fit the room; what is asked beyond it is cut to the room.
unfoldable pub cap_growth : Heap → ℕ → ℕ → Option ℕ
cap_growth h needed extra =
    let room = arena_room h in
    if ltb room needed then none else some (if ltb room extra then room else extra)

-- `P2PmsgHeap_CheckArenaWidth` and `P2PmsgHeap_CheckCreateWidth`: whether they let the image pass.
unfoldable pub check_arena_width : AddrType → ℕ → Bool
check_arena_width w n = leb n (vbheap_max w)

unfoldable pub check_create_width : AddrType → Bool
check_create_width addr08 = false
check_create_width _ = true

-- A fifth of the arena, where that is more than what is needed.
unfoldable pub oversized : Heap → ℕ → Bool → ℕ
oversized h needed oversize =
    let bump = (h.size_alloc * 2) / 10 in if oversize && ltb needed bump then bump else needed

-- The free block of the grown tail is counted.
unfoldable pub count_tail : ℕ → M (Unit {0})
count_tail extra = do
  with_root (λ r. Root.set_free_size r extra false)
  with_root (λ r. Root.set_free_items r 1 false)
  count_entry 1

-- The new arena, larger by `extra`, with a free block counted in.
unfoldable pub extend : ℕ → M (Unit {0})
extend extra = do
  end ← get (λ h. h.size_alloc)
  modify (λ h. record h {
    hi_wm = end + extra;
    blocks = λ q. if leb end q then record (bare addr08) { size = 0 } else h.blocks q;
    feet = λ q. if ltb end q then record { magic = 0; size = 0 } else h.feet q;
  })
  count_tail extra
  modify (λ h. record h { size_alloc = end + extra; dirty = true })

-- The keys name the new last block.
unfoldable pub name_tail : ℕ → M (Unit {0})
name_tail a = do
  with_root (λ r. Root.set_free_last r a)
  r ← get (λ h. h.root)
  when (r.free == 0) (with_root (λ r. Root.set_free r a))

-- The tail becomes the last free block.
unfoldable pub append_free : ℕ → ℕ → M (Unit {0})
append_free a extra = do
  last ← get (λ h. h.root.free_last)
  block2phys a
  w ← get (λ h. h.addr_type)
  init_block a (bare w) extra
  set_prev a last
  set_linked a
  clear_type a
  name_tail a
  when (not (last == 0)) (do block_ptr last; set_next last a)
  modify (stamp_foot a)

-- `P2PmsgHeap_ResizeIOMAGE`: the result is by how much the arena grew. The validating walk at its
-- head repairs the counters, and its verdict is not looked at.
unfoldable pub resize : Bool → ℕ → Bool → M ℕ
resize gate needed oversize = do
  valid_iomage gate
  grown ← get (λ h. cap_growth h needed (oversized h needed oversize))
  elim grown [
    | none ↦ fail exceeds_max
    | some extra ↦ do a ← get (λ h. h.size_alloc); extend extra; append_free a extra; pure extra
  ]
