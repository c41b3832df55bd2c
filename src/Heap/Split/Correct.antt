-- ===== src/Heap/Split/Correct.antt =====
-- `P2PmsgHeap_SplitAllocIOMAGE` on a well-formed heap.
use msgcore.Prelude.{
  ℕ, ◌+◌, ◌-◌, ◌%◌, ◌^◌, ◌≤◌, ◌<◌, ◌≡◌, ◌≢◌, refl, ◌⊎◌, inl, inr, true, false, ◌&&◌, not, List, has,
  arith, update, ltb, ◌==◌, if◌then◌else◌, Bool-cases,
}
use msgcore.Width.{AddrType, addr_limit, vbheap_min}
use msgcore.Heap.{Block, Heap, Foot, ok, sizenn, init_block, block2phys}
use msgcore.Heap.Chain.{Chain-next, Chain-prev, Chain-not-null}
use msgcore.Heap.FreeList.{stamp_foot, split_extra, split_count, split_links, split_alloc}
use msgcore.Heap.WellFormed.{IsWellFormed, arena}
use msgcore.Heap.Isolate.{neighbours, counts}
use msgcore.Heap.Collate.{stamp_foot-feet}
use msgcore.Heap.Take.Run.{alloc_counts}
use msgcore.Heap.Split.Run.{
  parted, rest, split_extra_lem, split_count_lem, split_links_lem, init_block_lem,
}

split_alloc-run :
    (a n : ℕ) (h h₁ h₂ h₃ h₄ h₅ : Heap)
    → block2phys a h ≡ ok tt h
    → n + vbheap_min (h.blocks a).addr ≤ sizenn (h.blocks a)
    → sizenn (h.blocks a) < 2 ^ 32
    → split_extra (a + n) (h.blocks a) (sizenn (h.blocks a) - n) (record h { dirty = true })
      ≡ ok tt h₁
    → split_count a (a + n) n h₁ ≡ ok tt h₂
    → split_links (a + n) (h.blocks a) h₂ ≡ ok tt h₃
    → stamp_foot (a + n) h₃ ≡ h₄
    → init_block a (h.blocks a) n h₄ ≡ ok tt h₅
    → split_alloc a n h
      ≡ ok n (record h₅ { blocks = update h₅.blocks a (record (h₅.blocks a) { linked = false }) })
unfolding split_alloc
split_alloc-run a n h h₁ h₂ h₃ h₄ h₅ r₀ le small r₁ r₂ r₃ r₄ r₅ =
    let ex : (sizenn (h.blocks a) + 2 ^ 64 - n) % 2 ^ 64 ≡ sizenn (h.blocks a) - n = ground arith in
    let no : ltb (sizenn (h.blocks a) - n) (vbheap_min (h.blocks a).addr) ≡ false = ground arith in
    rw (r₀, ex, no, r₁, r₂, r₃, r₄, r₅) refl

-- The block at `q` after the split, in terms of the one before.
abbrev pub split_blocks : (ℕ → Block) → AddrType → ℕ → ℕ → ℕ → ℕ → Block
split_blocks f w a e n q =
    if q == a
    then record (f a) { alloc = true; linked = false; size = n; prev = 0; next = 0 }
    else if q == e
    then record (f e) {
      addr = w;
      type = 0;
      alloc = true;
      linked = true;
      size = (f a).size - n;
      prev = (f a).prev;
      next = (f a).next;
    }
    else record (f q) {
      prev = if (q == (f a).next) && not ((f a).next == 0) then e else (f q).prev;
      next = if (q == (f a).prev) && not ((f a).prev == 0) then e else (f q).next;
    }

split_blocks_lem :
    (f g₁ g₃ g₅ : ℕ → Block) (w : AddrType) (a e n : ℕ)
    → a ≢ e
    → 0 < n
    → (f a).prev ≢ a
    → (f a).next ≢ a
    → (f a).prev ≢ e
    → (f a).next ≢ e
    → sizenn (f a) ≡ (f a).size
    → ((q : ℕ) → g₁ q ≡ (if q == e then rest f e w (sizenn (f a) - n) (f a) else f q))
    → ((q : ℕ)
        → g₃ q ≡ record (g₁ q) {
          prev = if (q == (f a).next) && not ((f a).next == 0) then e else (g₁ q).prev;
          next = if (q == (f a).prev) && not ((f a).prev == 0) then e else (g₁ q).next;
        })
    → ((q : ℕ)
        → g₅ q ≡ (
            if q == a
            then record (g₃ a) {
              addr = (f a).addr;
              type = (f a).type;
              alloc = true;
              linked = (f a).linked;
              size = n;
              prev = 0;
              next = 0;
            }
            else g₃ q))
    → (q : ℕ) → update g₅ a (record (g₅ a) { linked = false }) q ≡ split_blocks f w a e n q
split_blocks_lem f g₁ g₃ g₅ w a e n ne pos pa na pe ne' ex at₁ at₃ at₅ q =
    let a₁ = at₁ q in
    let a₃ = at₃ q in
    let a₅ = at₅ q in
    elim (Bool-cases (q == a)) [
      | inl hit ↦ ground arith
      | inr miss ↦ elim (Bool-cases (q == e)) [ inl here ↦ ground arith | inr other ↦ ground arith ]
    ]

-- The heap after the split, its blocks and tags given.
abbrev pub split : Heap → ℕ → ℕ → (ℕ → Block) → (ℕ → Foot) → Heap
split h a n g x = record h { root = parted h.root a (a + n) n; blocks = g; feet = x; dirty = true }

-- A link of the block is null or names another block of the image's width.
abbrev IsLink : Heap → ℕ → ℕ → ℕ → Type 0
IsLink h a e p =
    (p ≢ a) × (p ≢ e) × ((p ≡ 0) ⊎ ((p < h.size_alloc) × ((h.blocks p).addr ≡ h.addr_type)))

-- What a split relies on.
record Splittable (h : Heap) (a n : ℕ) : Type 0 where
  start : 0 < a
  inside : a < h.size_alloc
  fits : h.size_alloc < addr_limit h.addr_type
  small : h.size_alloc < 0x8000_0000
  root_width : h.root.addr ≡ h.addr_type
  width : (h.blocks a).addr ≡ h.addr_type
  exact : sizenn (h.blocks a) ≡ (h.blocks a).size
  front : 0 < n
  back : n + vbheap_min h.addr_type ≤ (h.blocks a).size
  end : a + (h.blocks a).size ≤ h.size_alloc
  prev : IsLink h a (a + n) (h.blocks a).prev
  next : IsLink h a (a + n) (h.blocks a).next
  free : ((h.blocks a).size ≤ h.root.free_size) × (h.root.free_size < h.size_alloc)
  allocated : h.root.alloc_size + (h.blocks a).size < h.size_alloc
  items : h.root.alloc_items + 1 < h.size_alloc

abbrev Split : ℕ → ℕ → Heap → Type 0
Split a n h =
    (g : ℕ → Block) × (x : ℕ → Foot) × (split_alloc a n h ≡ ok n (split h a n g x))
    × ((q : ℕ) → g q ≡ split_blocks h.blocks h.addr_type a (a + n) n q)

module _ (a n : ℕ) (h : Heap) (s : Splittable h a n) where
  open s use {
    start, inside, fits, small, root_width, width, exact, front, back, end, prev, next, free,
    allocated, items,
  }

  -- The last three steps.
  finish :
      (g₁ : ℕ → Block)
      → split_extra (a + n) (h.blocks a) (sizenn (h.blocks a) - n) (record h { dirty = true })
        ≡ ok tt (record h { dirty = true; blocks = g₁ })
      → ((q : ℕ)
          → g₁ q ≡ (
              if q == a + n
              then rest h.blocks (a + n) h.addr_type (sizenn (h.blocks a) - n) (h.blocks a)
              else h.blocks q))
      → split_count a (a + n) n (record h { dirty = true; blocks = g₁ })
        ≡ ok tt (record h { dirty = true; blocks = g₁; root = parted h.root a (a + n) n })
      → (g₃ : ℕ → Block)
      → split_links
          (a + n)
          (h.blocks a)
          (record h { dirty = true; blocks = g₁; root = parted h.root a (a + n) n })
        ≡ ok tt (record h { dirty = true; blocks = g₃; root = parted h.root a (a + n) n })
      → ((q : ℕ)
          → g₃ q ≡ record (g₁ q) {
            prev =
                if (q == (h.blocks a).next) && not ((h.blocks a).next == 0)
                then a + n
                else (g₁ q).prev;
            next =
                if (q == (h.blocks a).prev) && not ((h.blocks a).prev == 0)
                then a + n
                else (g₁ q).next;
          })
      → Split a n h
  unfolding block2phys
  finish g₁ run₁ at₁ run₂ g₃ run₃ at₃ =
      let h₃ = record h { dirty = true; blocks = g₃; root = parted h.root a (a + n) n } in
      let (x, tag) = stamp_foot-feet (a + n) h₃ in
      let (g₅, run₅, at₅) =
        init_block_lem a (h.blocks a) n (record h₃ { feet = x }) (ground arith) in
      (
        update g₅ a (record (g₅ a) { linked = false }),
        x,
        split_alloc-run a n h (record h { dirty = true; blocks = g₁ })
            (record h { dirty = true; blocks = g₁; root = parted h.root a (a + n) n }) h₃
            (record h₃ { feet = x }) (record h₃ { feet = x; blocks = g₅ }) (ground arith)
            (ground arith) (ground arith) run₁ run₂ run₃ tag run₅,
        λ q.
            split_blocks_lem h.blocks g₁ g₃ g₅ h.addr_type a (a + n) n (omega arith) front prev.0
              next.0 prev.1 next.1 exact at₁ at₃ at₅ q,
      )

  Split-steps : Split a n h
  Split-steps =
      let h₀ = record h { dirty = true } in
      let (pa, pe, pi) = prev in
      let (na, ne, ni) = next in
      let (g₁, run₁, at₁) =
        split_extra_lem (a + n) (h.blocks a) (sizenn (h.blocks a) - n) h₀ (omega arith)
          (ground arith) fits (ground arith) (ground arith) (ground arith) in
      let run₂ =
        split_count_lem a (a + n) n (record h₀ { blocks = g₁ }) (ground arith) (ground arith)
          (ground arith) (ground arith) (ground arith) (ground arith) (ground arith)
          (ground arith) in
      let ap = at₁ (h.blocks a).prev in
      let an = at₁ (h.blocks a).next in
      let (g₃, run₃, at₃) =
        split_links_lem (a + n) (h.blocks a)
          (record h₀ { blocks = g₁; root = parted h.root a (a + n) n }) (ground arith)
          (ground arith) (ground arith) in
      finish g₁ run₁ at₁ run₂ g₃ run₃ at₃

module _ (h : Heap) {fl al : List ℕ} (wf : IsWellFormed (arena h) fl al 0) where
  -- A neighbour in the list does not start inside the block.
  pub neighbours-far :
      (a n : ℕ)
      → has a fl ≡ true
      → 0 < n
      → n < (h.blocks a).size
      → ((h.blocks a).prev ≢ a + n) × ((h.blocks a).next ≢ a + n)
  neighbours-far a n i pos lt =
      let z = Chain-not-null h.blocks 0 h.root.free h.root.free_last fl wf.chain in
      let cn = Chain-next h.blocks 0 h.root.free h.root.free_last a fl wf.chain i in
      let cp = Chain-prev h.blocks 0 h.root.free h.root.free_last a fl wf.chain z i in
      let b = wf.block a (ground arith) in
      (ground (arith, b.apart (h.blocks a).prev), ground (arith, b.apart (h.blocks a).next))

  pub split-ok :
      (a n : ℕ)
      → has a fl ≡ true
      → vbheap_min h.addr_type ≤ n
      → n + vbheap_min h.addr_type ≤ (h.blocks a).size
      → (g : ℕ → Block) × (x : ℕ → Foot) × (split_alloc a n h ≡ ok n (split h a n g x))
        × ((q : ℕ) → g q ≡ split_blocks h.blocks h.addr_type a (a + n) n q)
  split-ok a n i front back =
      let b = wf.block a (ground arith) in
      let ex = b.exact in
      let wd = b.width in
      let fits = wf.fits in
      let small = wf.small in
      let rwd = wf.root_width in
      let (p, nx, two) = neighbours h wf a i in
      let (ca, cb, cz, cd) = counts h wf a i in
      let (ra, rb, rc, rd) = alloc_counts h wf a i in
      let (fp, fn) = neighbours-far a n i (omega arith) (omega arith) in
      Split-steps a n h (record {
        start = omega arith;
        inside = omega arith;
        fits = fits;
        small = small;
        root_width = rwd;
        width = wd;
        exact = ex;
        front = ground arith;
        back = ground arith;
        end = omega arith;
        prev = (p.0, fp, p.1);
        next = (nx.0, fn, nx.1);
        free = omega arith;
        allocated = ground arith;
        items = ground arith;
      })
