-- ===== src/Heap/Alloc.antt =====
-- Allocation from an IOMAGE heap (MsgVBHeap.cpp, `P2PmsgHeap_AllocIOMAGE` and `P2PmsgHeap_Alloc`).
pub mod Pass
pub mod Ready
pub mod Request
pub mod Take
pub mod Walk
use msgcore.Prelude.{
  ℕ, zero, suc, ◌+◌, ◌-◌, ◌%◌, ◌^◌, Bool, true, false, ◌||◌, ◌&&◌, ltb, leb, ◌==◌, if◌then◌else◌,
}
use msgcore.Width.{AddrType, sizeof_hdr, vbheap_min}
use msgcore.Root.{Root, key_limit}
use msgcore.Root
use msgcore.Heap.{
  Heap, M, ◌>>=◌, ◌>>◌, pure, fail, get, modify, branch, when, with_root, sizenn, block_at,
  block_ptr, put_block, bare, init_block, max_blocks, mark_dirty, key_overflow, cyclic_free_list,
  not_survived, resizes_exhausted, exceeds_max, out_of_fuel,
}
use msgcore.Heap.FreeList.{is_free_header, collate, split_alloc}
use msgcore.Heap.Grow.{resize}

abbrev pub max_fit_walk : ℕ
max_fit_walk = 8

abbrev pub max_alloc_resizes : ℕ
max_alloc_resizes = 2

-- The block that the walk has chosen so far, with its size, and how many that fit it has seen.
pub record Fit : Type 0 where
  pub best : ℕ
  pub size : ℕ
  pub fits : ℕ

unfoldable pub better : Fit → ℕ → ℕ → Fit
better f a n = record {
  best = if (f.best == 0) || ltb n f.size then a else f.best;
  size = if (f.best == 0) || ltb n f.size then n else f.size;
  fits = f.fits + 1;
}

-- One walk of the free list, which collates each block it visits. The number is of the blocks that
-- it may still visit before the list is held to be cyclic.
unfoldable pub fit_walk : ℕ → Bool → ℕ → Fit → ℕ → M ℕ
fit_walk zero first n f a = branch (a == 0) (pure f.best) (fail cyclic_free_list)
fit_walk (suc more) first n f a = branch (a == 0) (pure f.best) (do
  collate a
  b ← block_at a
  branch (ltb (sizenn b) n) (fit_walk more first n f b.next) (
      branch (first || ltb (sizenn b - n) (vbheap_min b.addr)) (pure a) (
        let f' = better f a (sizenn b) in
        branch (leb max_fit_walk f'.fits) (pure f'.best) (fit_walk more first n f' b.next))))

-- The chosen block is taken.
unfoldable pub take_fit : ℕ → ℕ → M (ℕ × ℕ)
take_fit a n = do
  m ← split_alloc a n
  w ← get (λ h. h.addr_type)
  init_block a (bare w) m
  r ← get (λ h. h.root)
  when (r.alloc == 0) (with_root (λ r. Root.set_alloc r a))
  mark_dirty
  pure (a, m)

-- The passes over the list. A pass that finds nothing resizes, twice at most; a choice that a later
-- collation swallowed is followed by one first-fit pass, so four passes are the most there are.
unfoldable pub alloc_pass : ℕ → Bool → ℕ → ℕ → Bool → ℕ → M (ℕ × ℕ)
alloc_pass zero gate max n first resizes = λ h. out_of_fuel
alloc_pass (suc passes) gate max n first resizes = do
  free ← get (λ h. h.root.free)
  best ← fit_walk max first n (record { best = 0; size = 0; fits = 0 }) free
  branch (best == 0)
      (branch (leb max_alloc_resizes resizes) (fail resizes_exhausted) (do
        extra ← resize gate n true
        branch (extra == 0) (pure (0, n)) (alloc_pass passes gate max n first (resizes + 1))))
      (do
        b ← block_at best
        good ← get (λ h. is_free_header h best && leb n (sizenn b))
        branch good (take_fit best n)
            (branch first (fail not_survived) (alloc_pass passes gate max n true resizes)))

-- The address and the size of the block that was allocated.
unfoldable pub alloc_iomage : Bool → ℕ → M (ℕ × ℕ)
alloc_iomage gate n = do max ← get max_blocks; alloc_pass 4 gate max n false 0

-- `VBLock_Init` with `uAddrType|uVBLock`: the definitions come first.
unfoldable pub vblock_init : ℕ → AddrType → ℕ → ℕ → M (Unit {0})
vblock_init a w type n = do
  put_block a (λ b. record b { addr = w; type = type; alloc = true; linked = false })
  branch (ltb n (key_limit w)) (put_block a (λ b. record b { size = n })) (fail key_overflow)

-- What a request for `n` bytes of payload takes.
abbrev pub block_request : Heap → ℕ → ℕ
block_request h n =
    let m = (n + sizeof_hdr h.addr_type) % 2 ^ 64 in if ltb m h.vblock_min then h.vblock_min else m

-- `P2PmsgHeap_Alloc` for an IOMAGE heap, `type` being the type bits of `uVBLock`.
unfoldable pub alloc : Bool → ℕ → ℕ → M ℕ
alloc gate type n = do
  mark_dirty
  m ← get (λ h. block_request h n)
  over ← get (λ h. ltb h.size_max ((h.size_used + m) % 2 ^ 64))
  when over (fail exceeds_max)
  r ← alloc_iomage gate m
  modify (λ h. record h { size_used = (h.size_used + r.1) % 2 ^ 64 })
  block_ptr r.0
  w ← get (λ h. h.addr_type)
  vblock_init r.0 w type r.1
  pure r.0
