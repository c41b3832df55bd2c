-- ===== src/Heap/Extend/Run.antt =====
-- The steps of `P2PmsgHeap_ResizeIOMAGE`.
use msgcore.Prelude.{
  ℕ, ◌+◌, ◌%◌, ◌^◌, ◌≤◌, ◌<◌, ◌≡◌, ◌≢◌, refl, ◌∙◌, ap, sym, ◌⊎◌, inl, inr, true, false, ◌&&◌, not,
  arith, update, ltb, leb, ◌==◌, if◌then◌else◌, some, Bool-cases,
}
use msgcore.Width.{AddrType, addr08, addr_limit}
use msgcore.Root.{Root, set_free, set_free_last, set_free_size, set_free_items}
use msgcore.Heap.{
  Block, Foot, Heap, ok, bare, init_block, set_prev, set_next, block2phys, addr2phys, block_ptr,
  and_then, when, modify, ◌>>◌,
}
use msgcore.Heap.FreeList.{stamp_foot}
use msgcore.Heap.Collate.{stamp_foot-feet}
use msgcore.Heap.Split.Run.{init_block_lem, set_prev_lem, set_next_lem}
use msgcore.Heap.Grow.{extend, count_tail, name_tail, append_free}

-- The heap once its arena is larger by `x`.
abbrev pub extended : Heap → ℕ → Heap
extended h x = record h {
  root = record h.root { free_size = h.root.free_size + x; free_items = h.root.free_items + 1 };
  blocks = λ q. if leb h.size_alloc q then record (bare addr08) { size = 0 } else h.blocks q;
  feet = λ q. if ltb h.size_alloc q then record { magic = 0; size = 0 } else h.feet q;
  hi_wm = h.size_alloc + x;
  free_entries = (h.free_entries + 1) % 2 ^ 32;
  size_alloc = h.size_alloc + x;
  dirty = true;
}

count_tail_lem :
    (x : ℕ) (h : Heap)
    → h.root.free_size + x < 0x8000_0000
    → h.root.free_size + x < addr_limit h.root.addr
    → h.root.free_items ≤ h.root.free_size
    → 0 < x
    → count_tail x h
      ≡ ok tt (record h {
        root = record h.root {
          free_size = h.root.free_size + x;
          free_items = h.root.free_items + 1;
        };
        free_entries = (h.free_entries + 1) % 2 ^ 32;
      })
unfolding count_tail set_free_size set_free_items
count_tail_lem x h small fit few pos = ground arith

pub extend_lem :
    (x : ℕ) (h : Heap)
    → h.root.free_size + x < 0x8000_0000
    → h.root.free_size + x < addr_limit h.root.addr
    → h.root.free_items ≤ h.root.free_size
    → 0 < x
    → extend x h ≡ ok tt (extended h x)
unfolding extend
extend_lem x h small fit few pos =
    let h₁ = record h {
      hi_wm = h.size_alloc + x;
      blocks = (extended h x).blocks;
      feet = (extended h x).feet;
    } in
    ap
      (λ o.
        and_then o (λ u. modify (λ h'. record h' { size_alloc = h.size_alloc + x; dirty = true })))
      (count_tail_lem x h₁ small fit few pos)

-- The keys with the new last block.
abbrev pub tailed : Root → ℕ → Root
tailed r a = record r { free_last = a; free = if r.free == 0 then a else r.free }

-- The blocks after the header of the new last block is written.
abbrev pub tail_blocks : (ℕ → Block) → AddrType → ℕ → ℕ → ℕ → ℕ → Block
tail_blocks f w a x last q =
    if q == a
    then record (f a) {
      addr = w;
      type = 0;
      alloc = true;
      linked = true;
      size = x;
      prev = last;
      next = 0;
    }
    else if (q == last) && not (last == 0)
    then record (f q) { next = a }
    else f q

name_tail_lem :
    (a : ℕ) (h : Heap)
    → a < addr_limit h.root.addr
    → name_tail a h ≡ ok tt (record h { root = tailed h.root a })
unfolding name_tail set_free set_free_last
name_tail_lem a h room = ground arith

tail-run :
    (a x : ℕ) (h : Heap) (f₁ f₂ : ℕ → Block)
    → block2phys a h ≡ ok tt h
    → init_block a (bare h.addr_type) x h ≡ ok tt (record h { blocks = f₁ })
    → set_prev a h.root.free_last (record h { blocks = f₁ }) ≡ ok tt (record h { blocks = f₂ })
    → a < addr_limit h.root.addr
    → (f₄ : ℕ → Block)
    → f₄ ≡ (
        let f₃ = update f₂ a (record (f₂ a) { linked = true }) in
        update f₃ a (record (f₃ a) { type = 0 }))
    → append_free a x h
      ≡ (do
        when
            (not (h.root.free_last == 0))
            (do block_ptr h.root.free_last; set_next h.root.free_last a)
        modify (stamp_foot a))
          (record h { blocks = f₄; root = tailed h.root a })
unfolding append_free
tail-run a x h f₁ f₂ r₁ r₂ r₃ room f₄ e =
    let named = name_tail_lem a (record h { blocks = f₄ }) room in
    rw (r₁, r₂, r₃, sym e, named) refl

addr2phys_lem : (p : ℕ) (h : Heap) → p ≢ 0 → p ≤ h.size_alloc → addr2phys p h ≡ ok (some p) h
unfolding addr2phys
addr2phys_lem p h nz le = ground arith

link_tail-run :
    (last a : ℕ) (h h₁ h₂ : Heap)
    → ((last == 0) ≡ true × h₁ ≡ h)
      ⊎ ((last == 0) ≡ false
          × (addr2phys last h ≡ ok (some last) h)
          × (set_next last a h ≡ ok tt h₁))
    → stamp_foot a h₁ ≡ h₂
    → (do when (not (last == 0)) (do block_ptr last; set_next last a); modify (stamp_foot a)) h
      ≡ ok tt h₂
link_tail-run last a h h₁ h₂ (inl (z, e)) tag = rw (z, sym e, tag) refl
link_tail-run last a h h₁ h₂ (inr (nz, ptr, run)) tag = rw (nz, ptr, run, tag) refl

pub append_free_lem :
    (a x : ℕ) (h : Heap)
    → 0 < a
    → a < h.size_alloc
    → a < addr_limit h.addr_type
    → x < addr_limit h.addr_type
    → h.root.addr ≡ h.addr_type
    → h.root.free_last < addr_limit h.addr_type
    → (h.root.free_last ≡ 0)
      ⊎ ((h.root.free_last ≢ a)
          × (h.root.free_last ≤ h.size_alloc)
          × ((h.blocks h.root.free_last).addr ≡ h.addr_type))
    → (g : ℕ → Block) × (y : ℕ → Foot) × (append_free a x h
        ≡ ok tt (record h { root = tailed h.root a; blocks = g; feet = y }))
      × ((q : ℕ) → g q ≡ tail_blocks h.blocks h.addr_type a x h.root.free_last q)
unfolding block2phys
append_free_lem a x h pos ins room fit rwd lfit last =
    let (g, run, at) = init_block_lem a (bare h.addr_type) x h fit in
    let aa = at a in
    let f₂ = update g a (record (g a) { prev = h.root.free_last }) in
    let f₃ = update f₂ a (record (f₂ a) { linked = true }) in
    let f₄ = update f₃ a (record (f₃ a) { type = 0 }) in
    let prev = set_prev_lem a h.root.free_last (record h { blocks = g }) (ground arith) in
    let tail = tail-run a x h g f₂ (ground arith) run prev (rw rwd room) f₄ refl in
    let h₄ = record h { blocks = f₄; root = tailed h.root a } in
    elim (Bool-cases (h.root.free_last == 0)) [
      | inl z ↦
          let (y, tag) = stamp_foot-feet a h₄ in
          (
            f₄,
            y,
            tail
                ∙ link_tail-run h.root.free_last a h₄ h₄ (record h₄ { feet = y }) (inl (z, refl))
                    tag,
            λ q. let e = at q in ground arith,
          )
      | inr nz ↦
          let f₅ = update f₄ h.root.free_last (record (f₄ h.root.free_last) { next = a }) in
          let al = at h.root.free_last in
          let wl : (f₄ h.root.free_last).addr ≡ h.addr_type = ground arith in
          let (y, tag) = stamp_foot-feet a (record h₄ { blocks = f₅ }) in
          let ptr = addr2phys_lem h.root.free_last h₄ (ground arith) (ground arith) in
          let next = set_next_lem h.root.free_last a h₄ (rw wl room) in
          (
            f₅,
            y,
            tail
                ∙ link_tail-run h.root.free_last a h₄ (record h₄ { blocks = f₅ })
                    (record h₄ { blocks = f₅; feet = y }) (inr (nz, ptr, next)) tag,
            λ q. let e = at q in ground arith,
          )
    ]
