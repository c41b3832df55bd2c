-- ===== src/Heap/Isolate.antt =====
-- What `isolate` does to a well-formed heap.
use msgcore.Prelude.{
  ℕ, ◌+◌, ◌-◌, ◌%◌, ◌^◌, ◌≤◌, ◌<◌, ◌≡◌, ◌≢◌, ◌⊎◌, inl, inr, true, false, ◌&&◌, not, List, has,
  arith, update, ◌==◌, if◌then◌else◌, Bool-cases,
}
use msgcore.Width.{addr_limit}
use msgcore.Root.{Root, int_minus_one, set_free, set_free_last, set_alloc, set_free_items}
use msgcore.Root.Laws.{set_free_size-sub}
use msgcore.Heap.{Block, Heap, ok, sizenn, block2phys, set_prev, set_next}
use msgcore.Heap.Chain.{
  Chain, remove, Chain-not-null, Chain-cast, Chain-end, Chain-links, Chain-next, Chain-prev,
}
use msgcore.Heap.Chain.Remove.{Chain-remove}
use msgcore.Heap.Chain.Totals.{length-le-total, total-remove, length-remove}
use msgcore.Heap.WellFormed.{IsWellFormed, arena}
use msgcore.Heap.FreeList.{isolate, isolate_keys, isolate_links, isolate_count}

abbrev pub or_else : ℕ → ℕ → ℕ
or_else a b = if a == 0 then b else a

-- The root's keys after `isolate_keys`.
abbrev pub moved : Root → ℕ → Block → Root
moved r a b = record r {
  alloc = if r.alloc == a then or_else b.prev b.next else r.alloc;
  free = if r.free == a then or_else b.prev b.next else r.free;
  free_last = if r.free_last == a then or_else b.next b.prev else r.free_last;
}

isolate_keys_lem :
    (a : ℕ) (b : Block) (h : Heap)
    → b.prev < addr_limit h.root.addr
    → b.next < addr_limit h.root.addr
    → isolate_keys a b h ≡ ok tt (record h { root = moved h.root a b })
unfolding isolate_keys set_alloc set_free set_free_last
isolate_keys_lem a b h p n = ground arith

-- The blocks after `isolate_links`.
abbrev pub bypassed : (ℕ → Block) → ℕ → Block → ℕ → Block
bypassed f a b q = if q == a then record (f a) { prev = 0; next = 0 } else record (f q) {
  prev = if (q == b.next) && not (b.next == 0) then b.prev else (f q).prev;
  next = if (q == b.prev) && not (b.prev == 0) then b.next else (f q).next;
}

-- A neighbour that a link names, or null.
abbrev pub IsNeighbour : Heap → ℕ → ℕ → Type 0
IsNeighbour h a p = (p ≢ a) × ((p ≡ 0) ⊎ ((p < h.size_alloc) × ((h.blocks p).addr ≡ h.addr_type)))

isolate_links_lem :
    (a : ℕ) (h : Heap)
    → h.size_alloc < addr_limit h.addr_type
    → a < h.size_alloc
    → (h.blocks a).addr ≡ h.addr_type
    → IsNeighbour h a (h.blocks a).prev
    → IsNeighbour h a (h.blocks a).next
    → ((h.blocks a).prev ≡ (h.blocks a).next → (h.blocks a).prev ≡ 0)
    → (g : ℕ → Block) × (isolate_links a (h.blocks a) h ≡ ok tt (record h { blocks = g }))
      × ((q : ℕ) → g q ≡ bypassed h.blocks a (h.blocks a) q)
unfolding isolate_links block2phys set_prev set_next
isolate_links_lem a h fits ina wide p n apart = elim (Bool-cases ((h.blocks a).prev == 0)) [
  | inl p0 ↦ elim (Bool-cases ((h.blocks a).next == 0)) [
    | inl n0 ↦ (h.blocks, ground arith, λ q. ground arith)
    | inr n1 ↦ (
      update
          (update h.blocks (h.blocks a).next
            (record (h.blocks (h.blocks a).next) { prev = (h.blocks a).prev }))
          a (record (h.blocks a) { next = 0 }),
      ground arith,
      λ q. ground arith,
    )
  ]
  | inr p1 ↦ elim (Bool-cases ((h.blocks a).next == 0)) [
    | inl n0 ↦ (
      update
          (update h.blocks (h.blocks a).prev
            (record (h.blocks (h.blocks a).prev) { next = (h.blocks a).next }))
          a (record (h.blocks a) { prev = 0 }),
      ground arith,
      λ q. ground arith,
    )
    | inr n1 ↦ (
      update
          (update
            (update
              (update h.blocks (h.blocks a).prev
                (record (h.blocks (h.blocks a).prev) { next = (h.blocks a).next }))
              a (record (h.blocks a) { prev = 0 }))
            (h.blocks a).next (record (h.blocks (h.blocks a).next) { prev = (h.blocks a).prev }))
          a (record (h.blocks a) { prev = 0; next = 0 }),
      ground arith,
      λ q. ground arith,
    )
  ]
]

-- The counters after `isolate_count`.
abbrev pub uncounted : Root → ℕ → Root
uncounted r n = record r { free_size = r.free_size - n; free_items = r.free_items - 1 }

-- The wiped header of `isolate_count`.
abbrev pub cleared : (ℕ → Block) → ℕ → ℕ → Block
cleared f a =
    update (update f a (record (f a) { linked = false })) a
      (record (f a) { linked = false; type = 0 })

isolate_count_lem :
    (a : ℕ) (b : Block) (h : Heap)
    → sizenn b < 0x8000_0000
    → sizenn b ≤ h.root.free_size
    → h.root.free_size < 0x8000_0000
    → h.root.free_size < addr_limit h.root.addr
    → 0 < h.root.free_items
    → h.root.free_items ≤ h.root.free_size
    → isolate_count a b h
      ≡ ok tt (record h {
        root = uncounted h.root (sizenn b);
        blocks = cleared h.blocks a;
        free_entries = (h.free_entries + int_minus_one) % 2 ^ 32;
        dirty = true;
      })
unfolding isolate_count set_free_items
isolate_count_lem a b h small le size fit pos few =
    ground (arith, set_free_size-sub h.root (sizenn b) small le fit)

-- The blocks after `isolate`: the block is bypassed, and its header wiped.
abbrev pub unlinked : (ℕ → Block) → ℕ → ℕ → Block
unlinked f a q =
    if q == a
    then record (f a) { type = 0; linked = false; prev = 0; next = 0 }
    else bypassed f a (f a) q

-- The heap after `isolate`, its blocks given.
abbrev pub isolated : Heap → ℕ → (ℕ → Block) → Heap
isolated h a g = record h {
  root = uncounted (moved h.root a (h.blocks a)) (sizenn (h.blocks a));
  blocks = g;
  free_entries = (h.free_entries + int_minus_one) % 2 ^ 32;
  dirty = true;
}

-- The heap that `isolate` leaves: its blocks, and its free list.
abbrev pub Unlinks : Heap → List ℕ → ℕ → Type 0
Unlinks h fl a =
    (g : ℕ → Block) × (isolate a h ≡ ok tt (isolated h a g))
    × ((q : ℕ) → g q ≡ unlinked h.blocks a q)
    × Chain g 0 (isolated h a g).root.free (remove a fl) (isolated h a g).root.free_last

isolate-run :
    (a : ℕ) (h h₁ h₂ h₃ : Heap)
    → block2phys a h ≡ ok tt h
    → isolate_keys a (h.blocks a) h ≡ ok tt h₁
    → isolate_links a (h.blocks a) h₁ ≡ ok tt h₂
    → isolate_count a (h.blocks a) h₂ ≡ ok tt h₃
    → isolate a h ≡ ok tt h₃
unfolding isolate
isolate-run a h h₁ h₂ h₃ r₀ r₁ r₂ r₃ = rw (r₀, r₁, r₂, r₃)

module _ (h : Heap) {fl al : List ℕ} {pending : ℕ} (wf : IsWellFormed (arena h) fl al pending) where
  open wf use {chain, block, fits}

  -- The links of a free block.
  pub neighbours :
      (a : ℕ)
      → has a fl ≡ true
      → IsNeighbour h a (h.blocks a).prev
        × IsNeighbour h a (h.blocks a).next
        × ((h.blocks a).prev ≡ (h.blocks a).next → (h.blocks a).prev ≡ 0)
  neighbours a i =
      let z = Chain-not-null h.blocks 0 h.root.free h.root.free_last fl chain in
      let l = Chain-links h.blocks 0 h.root.free h.root.free_last a fl chain z i in
      let n = Chain-next h.blocks 0 h.root.free h.root.free_last a fl chain i in
      let p = Chain-prev h.blocks 0 h.root.free h.root.free_last a fl chain z i in
      let bn = block (h.blocks a).next in
      let bp = block (h.blocks a).prev in (ground (arith, bp), ground (arith, bn), ground arith)

  -- Bounds on the counters of a heap that has a free block.
  pub counts :
      (a : ℕ)
      → has a fl ≡ true
      → (sizenn (h.blocks a) ≤ h.root.free_size)
        × (h.root.free_size < h.size_alloc)
        × (0 < h.root.free_items)
        × (h.root.free_items ≤ h.root.free_size)
  counts a i =
      let le =
        length-le-total h.blocks fl (λ q iq. let b = block q (ground arith) in omega arith) in
      let rm = total-remove h.blocks a fl i in
      (omega arith, omega arith, ground (arith, length-remove a fl), omega arith)

  -- Isolating a block of the free list of a well-formed heap succeeds. The block loses its links, its
  -- type and its linked bit, and its neighbours are linked to each other; the keys then describe the
  -- list without it, the free count and size are less by it, and nothing else of any block changes.
  pub isolate-ok : (a : ℕ) → has a fl ≡ true → Unlinks h fl a
  unfolding block2phys
  isolate-ok a i =
      let (p, n, apart) = neighbours a i in
      let b = block a (ground arith) in
      let (ca, cb, cz, cd) = counts a i in
      let z = Chain-not-null h.blocks 0 h.root.free h.root.free_last fl chain in
      let pv = Chain-prev h.blocks 0 h.root.free h.root.free_last a fl chain z i in
      let nx = Chain-end h.blocks 0 h.root.free h.root.free_last a fl chain i in
      let h₁ = record h { root = moved h.root a (h.blocks a) } in
      let (g, run, at) = isolate_links_lem a h₁ fits (omega arith) b.width p n apart in
      (
        cleared g a,
        isolate-run a h h₁ (record h₁ { blocks = g }) _ (ground arith)
            (isolate_keys_lem a (h.blocks a) h (ground arith) (ground arith)) run
            (isolate_count_lem a (h.blocks a) (record h₁ { blocks = g }) (omega arith) (omega arith)
              (omega arith) (ground arith) (omega arith) (omega arith)),
        λ q. ground (arith, at q, at a),
        Chain-cast (cleared g a) 0 (remove a fl) (ground (arith, pv)) (ground (arith, nx)) (
            Chain-remove h.blocks (cleared g a) a (λ q nz ne. ground (arith, at q)) 0 h.root.free
              h.root.free_last fl chain i z (ground arith)),
      )
