-- ===== src/Heap/Bounds.antt =====
-- The bounds checks on offsets, spans and pointers: MsgVBHeap.cpp (`P2PmsgHeap_Addr2PhysChk`,
-- `P2PmsgHeap_IsPhysSpan`, `P2PmsgHeap_Sizeof`) for an image, and P2PmsgVBLock.cpp for a lump inside
-- a block. Pointers are 64-bit numbers, and sums of them wrap.
use msgcore.Prelude.{
  ℕ, ◌+◌, ◌-◌, ◌%◌, ◌^◌, ◌<◌, ◌≤◌, ◌≡◌, ◌↔◌, Bool, true, false, ◌||◌, ◌&&◌, not, Option, none, some,
  arith, leb, ltb, ◌==◌, if◌then◌else◌,
}
use msgcore.Width.{sizeof_hdr}
use msgcore.Heap.{Block, Heap, M, ok, throw, ◌>>=◌, pure, overrun, outside_image, addr2phys, sizenn}

-- The offset whose `span` bytes are in bounds, or null.
unfoldable pub addr2phys_chk : ℕ → ℕ → M (Option ℕ)
addr2phys_chk a span = addr2phys a >>= elim [
  | none ↦ pure none
  | some p ↦ λ h. if ltb h.size_alloc ((a + span) % 2 ^ 64) then throw overrun h else ok (some p) h
]

-- `image` is where the image lies, and 0 stands for null.
unfoldable pub is_phys_span : ℕ → ℕ → ℕ → ℕ → Bool
is_phys_span image size_alloc pv span =
    if pv == 0 || image == 0
    then false
    else if leb pv image
    then false
    else if ltb size_alloc (pv - image)
    then false
    else not (ltb (size_alloc - (pv - image)) span)

-- `P2PmsgHeap_Sizeof`: a block's size, once its header is known to lie inside the image.
unfoldable pub sizeof_block : ℕ → M ℕ
sizeof_block a h =
    if leb h.size_alloc a
    then throw outside_image h
    else if a == 0
    then ok 0 h
    else if ltb h.size_alloc (a + sizeof_hdr (h.blocks a).addr)
    then throw overrun h
    else ok (sizenn (h.blocks a)) h

-- `VBLock_IsContainedVBLump`: the block stands at `begin`, the lump at `pv`.
unfoldable pub is_contained_lump : Block → ℕ → ℕ → ℕ → Bool
is_contained_lump b begin pv span =
    let end = (begin + sizenn b + 2 ^ 64 - 1) % 2 ^ 64 in
    if not b.alloc
    then false
    else if ltb pv begin
    then false
    else if ltb end pv
    then false
    else if ltb 0 span && ltb end ((pv + span + 2 ^ 64 - 1) % 2 ^ 64)
    then false
    else true

-- `VBLock_ChkContained`, for an owner: whether it returns.
unfoldable pub chk_contained : Block → ℕ → ℕ → ℕ → Bool
chk_contained b begin pv span =
    let end = (begin + sizenn b) % 2 ^ 64 in
    not (pv == 0) && leb begin pv && leb pv end && leb span (end - pv)

-- A span within 64 bits is let through exactly where it lies inside the image, and the heap is as
-- it was; offset 0 answers null.
pub addr2phys_chk_iff :
    (h : Heap) (a span : ℕ)
    → a + span < 2 ^ 64
    → ((addr2phys_chk a span h ≡ ok (some a) h) ↔ ((0 < a) × (a + span ≤ h.size_alloc)))
      × ((addr2phys_chk a span h ≡ ok none h) ↔ (a ≡ 0))
unfolding addr2phys_chk addr2phys
addr2phys_chk_iff h a span small =
    ((λ e. ground arith, λ e. ground arith), (λ e. ground arith, λ e. ground arith))

-- The test on pointers agrees with the one on offsets, whatever the span: the bytes at an offset
-- are in bounds exactly when offset and span together stay inside the image.
pub is_phys_span_iff :
    (image size_alloc a span : ℕ)
    → 0 < image
    → (is_phys_span image size_alloc (image + a) span ≡ true) ↔ ((0 < a) × (a + span ≤ size_alloc))
unfolding is_phys_span
is_phys_span_iff image size_alloc a span pos = (λ e. ground arith, λ e. ground arith)

-- A lump passes the throwing check exactly when all its bytes are the block's, for a block that
-- does not run over the end of the address space.
pub chk_contained_iff :
    (b : Block) (begin pv span : ℕ)
    → 0 < begin
    → begin + sizenn b < 2 ^ 64
    → (chk_contained b begin pv span ≡ true) ↔ ((begin ≤ pv) × (pv + span ≤ begin + sizenn b))
unfolding chk_contained
chk_contained_iff b begin pv span pos fit = (λ e. ground arith, λ e. ground arith)

-- Where nothing wraps, a lump of a byte or more is contained exactly when the block is allocated and
-- the lump passes the throwing check.
pub is_contained_lump-chk_contained :
    (b : Block) (begin pv span : ℕ)
    → 0 < begin
    → 0 < span
    → 0 < sizenn b
    → begin + sizenn b < 2 ^ 64
    → pv + span < 2 ^ 64
    → is_contained_lump b begin pv span ≡ (b.alloc && chk_contained b begin pv span)
unfolding is_contained_lump chk_contained
is_contained_lump-chk_contained b begin pv span pos more size fit small = ground arith
