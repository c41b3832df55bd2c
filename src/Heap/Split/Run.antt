-- ===== src/Heap/Split/Run.antt =====
-- Handing out the front of a free block of a well-formed heap: the steps of `split_alloc`.
use msgcore.Prelude.{
  ℕ, ◌+◌, ◌-◌, ◌≤◌, ◌<◌, ◌≡◌, refl, ◌⊎◌, inl, inr, true, ◌&&◌, not, arith, update, ◌==◌,
  if◌then◌else◌, Bool-cases,
}
use msgcore.Width.{AddrType, addr_limit}
use msgcore.Root.{Root, set_free, set_free_last}
use msgcore.Root.Laws.{set_free_size-sub}
use msgcore.Heap.{
  Block, Heap, ok, bare, clear_type, set_linked, ◌>>◌, init_block, set_prev, set_next, block2phys,
}
use msgcore.Heap.Chain.Rename.{renamed}
use msgcore.Heap.FreeList.{split_extra, split_count, split_links}
use msgcore.Heap.Take.Run.{allotted, set_alloc_size-add, set_alloc_items-add}

-- The header of the rest.
abbrev pub rest : (ℕ → Block) → ℕ → AddrType → ℕ → Block → Block
rest f e w extra b = record (f e) {
  addr = w;
  type = 0;
  alloc = true;
  linked = true;
  size = extra;
  prev = b.prev;
  next = b.next;
}

-- A header is written whole.
pub init_block_lem :
    (a : ℕ) (b : Block) (n : ℕ) (h : Heap)
    → n < addr_limit b.addr
    → (g : ℕ → Block) × (init_block a b n h ≡ ok tt (record h { blocks = g }))
      × ((q : ℕ)
          → g q ≡ (
              if q == a
              then record (h.blocks a) {
                addr = b.addr;
                type = b.type;
                alloc = true;
                linked = b.linked;
                size = n;
                prev = 0;
                next = 0;
              }
              else h.blocks q))
unfolding init_block
init_block_lem a b n h room =
    let f = h.blocks in
    let f₁ =
      update f a (record (f a) { addr = b.addr; type = b.type; alloc = true; linked = b.linked }) in
    (update f₁ a (record (f₁ a) { size = n; prev = 0; next = 0 }), ground arith, λ q. ground arith)

pub set_next_lem :
    (a v : ℕ) (h : Heap)
    → v < addr_limit (h.blocks a).addr
    → set_next a v h
      ≡ ok tt (record h { blocks = update h.blocks a (record (h.blocks a) { next = v }) })
unfolding set_next
set_next_lem a v h room = ground arith

pub set_prev_lem :
    (a v : ℕ) (h : Heap)
    → v < addr_limit (h.blocks a).addr
    → set_prev a v h
      ≡ ok tt (record h { blocks = update h.blocks a (record (h.blocks a) { prev = v }) })
unfolding set_prev
set_prev_lem a v h room = ground arith

split_extra-run :
    (e : ℕ) (b : Block) (extra : ℕ) (h h₁ h₂ h₃ : Heap)
    → block2phys e h ≡ ok tt h
    → init_block e (bare h.addr_type) extra h ≡ ok tt h₁
    → set_next e b.next h₁ ≡ ok tt h₂
    → set_prev e b.prev h₂ ≡ ok tt h₃
    → split_extra e b extra h ≡ (do clear_type e; set_linked e) h₃
unfolding split_extra
split_extra-run e b extra h h₁ h₂ h₃ r₀ r₁ r₂ r₃ = rw (r₀, r₁, r₂, r₃) refl

pub split_extra_lem :
    (e : ℕ) (b : Block) (extra : ℕ) (h : Heap)
    → 0 < e
    → e < h.size_alloc
    → h.size_alloc < addr_limit h.addr_type
    → extra < addr_limit h.addr_type
    → b.prev < addr_limit h.addr_type
    → b.next < addr_limit h.addr_type
    → (g : ℕ → Block) × (split_extra e b extra h ≡ ok tt (record h { blocks = g }))
      × ((q : ℕ) → g q ≡ (if q == e then rest h.blocks e h.addr_type extra b else h.blocks q))
unfolding block2phys
split_extra_lem e b extra h pos ine fits room p n =
    let (g, run, at) = init_block_lem e (bare h.addr_type) extra h room in
    let ae = at e in
    let f₃ = update g e (record (g e) { next = b.next }) in
    let f₄ = update f₃ e (record (f₃ e) { prev = b.prev }) in
    let f₅ = update f₄ e (record (f₄ e) { type = 0 }) in
    let f₆ = update f₅ e (record (f₅ e) { linked = true }) in
    (
      f₆,
      split_extra-run e b extra h (record h { blocks = g }) (record h { blocks = f₃ })
          (record h { blocks = f₄ }) (ground arith) run
          (set_next_lem e b.next (record h { blocks = g }) (ground arith))
          (set_prev_lem e b.prev (record h { blocks = f₃ }) (ground arith)),
      λ q. let aq = at q in ground arith,
    )

-- The keys once the front of `a` has been counted out and `e` stands for the rest.
abbrev pub parted : Root → ℕ → ℕ → ℕ → Root
parted r a e n = record (allotted r n) {
  free_size = r.free_size - n;
  free = renamed a e r.free;
  free_last = renamed a e r.free_last;
}

pub split_count_lem :
    (a e n : ℕ) (h : Heap)
    → n < 0x8000_0000
    → n ≤ h.root.free_size
    → h.root.free_size < 0x8000_0000
    → h.root.free_size < addr_limit h.root.addr
    → h.root.alloc_size + n < addr_limit h.root.addr
    → h.root.alloc_items + 1 < addr_limit h.root.addr
    → h.root.alloc_items + 1 < 0x8000_0000
    → e < addr_limit h.root.addr
    → split_count a e n h ≡ ok tt (record h { root = parted h.root a e n })
unfolding split_count set_free set_free_last
split_count_lem a e n h small le size fit alloc items few room =
    let r₁ = record h.root { alloc_size = h.root.alloc_size + n } in
    let r₂ = record r₁ { alloc_items = r₁.alloc_items + 1 } in
    let e₁ = set_alloc_size-add h.root n alloc in
    let e₂ = set_alloc_items-add r₁ items few in
    let e₃ = set_free_size-sub r₂ n small le fit (omega arith) in ground arith

pub split_links_lem :
    (e : ℕ) (b : Block) (h : Heap)
    → e < addr_limit h.addr_type
    → (b.prev ≡ 0) ⊎ ((b.prev < h.size_alloc) × ((h.blocks b.prev).addr ≡ h.addr_type))
    → (b.next ≡ 0) ⊎ ((b.next < h.size_alloc) × ((h.blocks b.next).addr ≡ h.addr_type))
    → (g : ℕ → Block) × (split_links e b h ≡ ok tt (record h { blocks = g }))
      × ((q : ℕ)
          → g q ≡ record (h.blocks q) {
            prev = if (q == b.next) && not (b.next == 0) then e else (h.blocks q).prev;
            next = if (q == b.prev) && not (b.prev == 0) then e else (h.blocks q).next;
          })
unfolding split_links block2phys set_next set_prev
split_links_lem e b h room p n =
    let f = h.blocks in
    let f₁ = update f b.prev (record (f b.prev) { next = e }) in
    elim (Bool-cases (b.prev == 0)) [
      | inl p0 ↦ elim (Bool-cases (b.next == 0)) [
        | inl n0 ↦ (f, ground arith, λ q. ground arith)
        | inr n1 ↦
            (update f b.next (record (f b.next) { prev = e }), ground arith, λ q. ground arith)
      ]
      | inr p1 ↦ elim (Bool-cases (b.next == 0)) [
        | inl n0 ↦ (f₁, ground arith, λ q. ground arith)
        | inr n1 ↦
            (update f₁ b.next (record (f₁ b.next) { prev = e }), ground arith, λ q. ground arith)
      ]
    ]
