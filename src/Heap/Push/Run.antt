-- ===== src/Heap/Push/Run.antt =====
-- The steps of `P2PmsgHeap_FreeIOMAGE` up to its coalescing.
use msgcore.Prelude.{
  ℕ, ◌+◌, ◌-◌, ◌%◌, ◌^◌, ◌≤◌, ◌<◌, ◌≡◌, ◌≢◌, refl, inl, inr, true, false, ◌&&◌, not, arith, update,
  ◌==◌, if◌then◌else◌, Bool-cases,
}
use msgcore.Width.{addr_limit}
use msgcore.Root.{
  Root, set_free, set_free_last, set_free_size, set_alloc_size, set_free_items, set_alloc_items,
}
use msgcore.Root.Laws.{neg_int-add}
use msgcore.Heap.{Block, Heap, ok, set_prev, set_next, block2phys}
use msgcore.Heap.Free.{push_free, count_free}
use msgcore.Heap.Split.Run.{set_next_lem, set_prev_lem}

-- The links after `push_free`.
abbrev pub linked_in : (ℕ → Block) → ℕ → ℕ → ℕ → Block
linked_in f a c q =
    if q == a
    then record (f a) { prev = 0; next = c }
    else record (f q) { prev = if (q == c) && not (c == 0) then a else (f q).prev }

push_free-run :
    (a : ℕ) (h : Heap) (f₁ f₂ f₃ f₄ : ℕ → Block)
    → set_prev a 0 h ≡ ok tt (record h { blocks = f₁ })
    → set_next a 0 (record h { blocks = f₁ }) ≡ ok tt (record h { blocks = f₂ })
    → ((h.root.free == 0) ≡ true → f₄ ≡ f₂)
    → ((h.root.free == 0) ≡ false
        → (set_next a h.root.free (record h { blocks = f₂ }) ≡ ok tt (record h { blocks = f₃ }))
          × (block2phys h.root.free (record h { blocks = f₃ }) ≡ ok tt (record h { blocks = f₃ }))
          × (set_prev h.root.free a (record h { blocks = f₃ }) ≡ ok tt (record h { blocks = f₄ })))
    → push_free a h ≡ ok tt (record h { blocks = f₄ })
unfolding push_free
push_free-run a h f₁ f₂ f₃ f₄ r₁ r₂ empty some_free = elim (Bool-cases (h.root.free == 0)) [
  | inl z ↦ rw (r₁, r₂, z, empty z) refl
  | inr nz ↦ let (r₃, r₄, r₅) = some_free nz in rw (r₁, r₂, nz, r₃, r₄, r₅) refl
]

-- What `push_free` leaves.
abbrev pub Pushed : Heap → ℕ → Type 0
Pushed h a =
    (g : ℕ → Block) × (push_free a h ≡ ok tt (record h { blocks = g }))
    × ((q : ℕ) → g q ≡ linked_in h.blocks a h.root.free q)

pub push_free-empty :
    (a : ℕ) (h : Heap)
    → a < addr_limit h.addr_type
    → (h.blocks a).addr ≡ h.addr_type
    → h.root.free ≡ 0
    → Pushed h a
push_free-empty a h room wide none_free =
    let f = h.blocks in
    let f₁ = update f a (record (f a) { prev = 0 }) in
    let f₂ = update f₁ a (record (f₁ a) { next = 0 }) in
    (
      f₂,
      push_free-run a h f₁ f₂ f₂ f₂ (set_prev_lem a 0 h (ground arith))
          (set_next_lem a 0 (record h { blocks = f₁ }) (ground arith)) (λ z. refl)
          (λ nz. absurd (ground arith)),
      λ q. ground arith,
    )

pub push_free-some :
    (a : ℕ) (h : Heap)
    → a < addr_limit h.addr_type
    → (h.blocks a).addr ≡ h.addr_type
    → h.root.free ≢ 0
    → h.root.free ≢ a
    → h.root.free < h.size_alloc
    → h.root.free < addr_limit h.addr_type
    → (h.blocks h.root.free).addr ≡ h.addr_type
    → Pushed h a
unfolding block2phys
push_free-some a h room wide nz ne ins fit fw =
    let f = h.blocks in
    let c = h.root.free in
    let f₁ = update f a (record (f a) { prev = 0 }) in
    let f₂ = update f₁ a (record (f₁ a) { next = 0 }) in
    let f₃ = update f₂ a (record (f₂ a) { next = c }) in
    let f₄ = update f₃ c (record (f₃ c) { prev = a }) in
    let wa : (f₂ a).addr ≡ h.addr_type = ground arith in
    let wc : (f₃ c).addr ≡ h.addr_type = ground arith in
    (
      f₄,
      push_free-run a h f₁ f₂ f₃ f₄ (set_prev_lem a 0 h (ground arith))
          (set_next_lem a 0 (record h { blocks = f₁ }) (ground arith)) (λ z. absurd (ground arith))
          (λ nz. (
            set_next_lem a c (record h { blocks = f₂ }) (rw wa fit),
            ground arith,
            set_prev_lem c a (record h { blocks = f₃ }) (rw wc room),
          )),
      λ q. ground arith,
    )

-- The keys after `count_free`.
abbrev pub returned : Root → ℕ → ℕ → Root
returned r a n = record r {
  free = a;
  free_last = if r.free_last == 0 then a else r.free_last;
  free_size = r.free_size + n;
  alloc_size = r.alloc_size - n;
  free_items = r.free_items + 1;
  alloc_items = r.alloc_items - 1;
}

pub count_free_lem :
    (a n : ℕ) (h : Heap)
    → a < addr_limit h.root.addr
    → n < 0x8000_0000
    → n ≤ h.root.alloc_size
    → h.root.alloc_size + h.root.free_size < 0x8000_0000
    → h.root.alloc_size + h.root.free_size < addr_limit h.root.addr
    → 0 < h.root.alloc_items
    → h.root.alloc_items ≤ h.root.alloc_size
    → h.root.free_items ≤ h.root.free_size
    → 0 < n
    → count_free a n h
      ≡ ok tt (record h {
        root = returned h.root a n;
        blocks = update h.blocks a (record (h.blocks a) { type = 0 });
        free_entries = (h.free_entries + 1) % 2 ^ 32;
      })
unfolding count_free set_free set_free_last set_free_size set_alloc_size set_free_items
    set_alloc_items
count_free_lem a n h room small le sum fit pos items few more =
    let neg = neg_int-add n h.root.alloc_size small le (omega arith) in ground arith
