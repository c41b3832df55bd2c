-- ===== src/Heap/Validate.antt =====
-- The validators of an IOMAGE heap (MsgVBHeap.cpp): the checks of a free and of an allocated
-- block, the walk over the free list and the walk over all blocks, with the repairs they make
-- outside the untrusted gate. `gate` is whether `s_nUntrustedGate` is above zero. Inside it the
-- macro VBHEAP_DIAG makes the result false, and outside it asserts, which a release build drops.
pub mod FreeWalk
use msgcore.Prelude.{
  ℕ, zero, suc, ◌+◌, ◌%◌, ◌^◌, Bool, true, false, ◌||◌, ◌&&◌, not, Option, none, some, ltb, leb,
  ◌==◌, if◌then◌else◌,
}
use msgcore.Width.{AddrType, sizeof_root, vbheap_min}
use msgcore.Root.{Root, get_items}
use msgcore.Root
use msgcore.Heap.{
  Block, Heap, M, ◌>>=◌, ◌>>◌, pure, skip, get, modify, branch, when, with_root, is_free, is_addr,
  sizenn, max_blocks, put_block, set_linked, out_of_fuel,
}

-- A block of the width that its own byte declares fits the image.
unfoldable pub block_fits : Heap → ℕ → Bool
block_fits h a =
    not (a == 0) && ltb a h.size_alloc && leb (a + vbheap_min (h.blocks a).addr) h.size_alloc

abbrev pub free_header : Heap → ℕ → Bool
free_header h a = let b = h.blocks a in b.linked && b.alloc && is_free b && is_addr b h.addr_type

-- `P2PmsgHeap_AssertValidFree`: the block and its two neighbours.
unfoldable pub valid_free : Heap → ℕ → Bool
valid_free h a =
    let b = h.blocks a in
    block_fits h a
    && free_header h a
    && ((b.prev == 0)
        || (block_fits h b.prev && free_header h b.prev && ((h.blocks b.prev).next == a)))
    && ((b.next == 0)
        || (block_fits h b.next && free_header h b.next && ((h.blocks b.next).prev == a)))

-- `P2PmsgHeap_ValidAllocBSTRio`, which is also the image's. An allocated block that is not linked is
-- linked, and still refused.
unfoldable pub valid_alloc : Bool → Bool → ℕ → M Bool
valid_alloc gate repair a h =
    let b = h.blocks a in
    if not (block_fits h a)
    then pure false h
    else (do
      when
          (repair
            && not b.linked
            && not gate
            && not (is_free b)
            && is_addr b h.addr_type
            && b.alloc)
          (set_linked a)
      pure (b.alloc && b.linked && not (is_free b) && is_addr b h.addr_type))
        h

-- VBHEAP_DIAG
abbrev pub diag : Bool → Bool → Bool → Bool
diag gate x result = result && (x || not gate)

-- What a walk of the free list has counted.
pub record Count : Type 0 where
  pub entries : ℕ
  pub size : ℕ
  pub result : Bool

-- `none` is the early return: a block that does not fit, or more blocks than the image could hold,
-- which are the entries that the walk still has.
unfoldable pub free_walk : ℕ → Bool → Heap → Count → ℕ → Option Count
free_walk zero gate h c a = if a == 0 then some c else none
free_walk (suc more) gate h c a =
    let b = h.blocks a in
    let ends =
      ((not (a == h.root.free)) || (b.prev == 0))
      && ((not (a == h.root.free_last)) || (b.next == 0)) in
    let c' : Count = record {
      entries = c.entries + 1;
      size = (c.size + sizenn b) % 2 ^ 64;
      result = diag gate (is_addr b h.addr_type && valid_free h a && ends) c.result;
    } in
    let rest = free_walk more gate h c' b.next in
    if a == 0 then some c else if not (block_fits h a) then none else rest

-- The head and the tail are both null or neither, and the free size is not absurd.
unfoldable pub diag_root : Bool → Root → Bool
diag_root gate r =
    diag gate (ltb r.free_size 200_000_000) true
    && diag gate
        ((not (r.free == 0) || (r.free_last == 0)) && (not (r.free_last == 0) || (r.free == 0)))
        true

-- `P2PmsgHeap_AssertValidIOMAGE`
unfoldable pub valid_iomage : Bool → M Bool
valid_iomage gate h =
    elim (free_walk (max_blocks h) gate h
      (record { entries = 0; size = 0; result = diag_root gate h.root }) h.root.free) [
        | none ↦ pure false h
        | some c ↦
            (do
              when (not (c.size == h.root.free_size) && not gate)
                  (with_root (λ r. Root.set_free_size r c.size true))
              modify (λ h. record h { free_entries = c.entries })
              when (not (get_items h.root.addr h.root.free_items == c.entries) && not gate)
                  (with_root (λ r. Root.set_free_items r c.entries true))
              pure (
                  diag gate (get_items h.root.addr h.root.free_items == c.entries)
                    (diag gate (c.size == h.root.free_size) c.result)))
              h
      ]

-- What a walk over all blocks has counted, free and allocated.
pub record Tally : Type 0 where
  pub free_entries : ℕ
  pub free_size : ℕ
  pub alloc_entries : ℕ
  pub alloc_size : ℕ
  pub result : Bool

abbrev tally_free : Tally → ℕ → Bool → Tally
tally_free t n good = record t {
  free_entries = t.free_entries + 1;
  free_size = (t.free_size + n) % 2 ^ 64;
  result = t.result && good;
}

abbrev tally_alloc : Tally → ℕ → Bool → Tally
tally_alloc t n good = record t {
  alloc_entries = t.alloc_entries + 1;
  alloc_size = (t.alloc_size + n) % 2 ^ 64;
  result = t.result && good;
}

-- One block of the walk. `VBHeap_IsFree` is asked before the checks can link the block.
unfoldable pub tally_block : Bool → ℕ → Tally → M Tally
tally_block gate a t h =
    let b = h.blocks a in
    let good = b.linked && b.alloc && is_addr b h.addr_type in
    if is_free b
    then pure (tally_free t (sizenn b) (good && valid_free h a)) h
    else (do fine ← valid_alloc gate true a; pure (tally_alloc t (sizenn b) (good && fine))) h

-- Each turn moves on by one byte or more, so the image's size bounds the turns.
unfoldable pub block_walk : ℕ → Bool → ℕ → Tally → M (Option Tally)
block_walk zero gate a t h = out_of_fuel
block_walk (suc fuel) gate a t h =
    if leb h.size_alloc a
    then pure (some t) h
    else if not (block_fits h a)
    then pure none h
    else (do
      t' ← tally_block gate a t
      step ← get (λ h. sizenn (h.blocks a))
      end ← get (λ h. h.size_alloc)
      branch ((not t'.result && gate) || (step == 0) || ltb end step) (pure none)
          (block_walk fuel gate (a + step) t'))
        h

-- Outside the gate. `SetAllocSize` and `SetFreeItems` are called without their flag, so they add.
unfoldable pub correct_root : Tally → M (Unit {0})
correct_root t = do
  r ← get (λ h. h.root)
  when (not (t.free_size == r.free_size)) (with_root (λ r. Root.set_free_size r t.free_size true))
  when (not (t.alloc_size == r.alloc_size))
      (with_root (λ r. Root.set_alloc_size r t.alloc_size false))
  modify (λ h. record h { free_entries = t.free_entries })
  when (not (get_items r.addr r.free_items == t.free_entries))
      (with_root (λ r. Root.set_free_items r t.free_entries false))
  when (not (get_items r.addr r.alloc_items == t.alloc_entries))
      (with_root (λ r. Root.set_alloc_items r t.alloc_entries true))

abbrev pub tallies : Root → Tally → Bool
tallies r t =
    (t.free_size == r.free_size)
    && (t.alloc_size == r.alloc_size)
    && (get_items r.addr r.free_items == t.free_entries)
    && (get_items r.addr r.alloc_items == t.alloc_entries)

-- `P2PmsgHeap_AssertVBlocksIOMAGE`. The walk starts where the root's own size field says that the
-- root ends.
unfoldable pub valid_vblocks : Bool → M Bool
valid_vblocks gate h =
    let t₀ : Tally = record {
      free_entries = 0;
      free_size = 0;
      alloc_entries = 0;
      alloc_size = 0;
      result = diag gate (ltb h.root.free_size 200_000_000) true;
    } in
    (do
      t ← block_walk (h.size_alloc + 1) gate (8 + h.root.size) t₀
      elim t [
        | none ↦ pure false
        | some t ↦ do
          r ← get (λ h. h.root)
          branch gate (pure (t.result && tallies r t)) (do correct_root t; pure t.result)
      ])
      h
