-- ===== src/Heap/Create/Fresh.antt =====
-- What a new image heap is.
use msgcore.Prelude.{
  ℕ, ◌+◌, ◌-◌, ◌%◌, ◌^◌, ◌≤◌, ◌<◌, ◌≡◌, ◌≢◌, refl, true, false, arith, some, update, ltb, ◌==◌,
  if◌then◌else◌,
}
use msgcore.Width.{
  AddrType, addr08, addr16, addr32, addr64, addr_limit, sizeof_root, vbheap_min, vbheap_max,
}
use msgcore.Root.{Root, set_free, set_free_last, set_free_size, set_free_items, init}
use msgcore.Heap.{Block, Heap, ok, init_block, bare, put_block, set_linked, clear_type, ◌>>◌}
use msgcore.Heap.Grow.{check_create_width}
use msgcore.Heap.Split.Run.{init_block_lem}
use msgcore.Heap.Create.{create_iomage, init_iomage, blank, round_up}

-- The root and the blocks of a new image of `n` bytes.
abbrev pub new_root : AddrType → ℕ → Root
new_root w n = record {
  addr = w;
  size = sizeof_root w;
  alloc = 0;
  alloc_size = 0;
  alloc_items = 0;
  free = 8 + sizeof_root w;
  free_last = 8 + sizeof_root w;
  free_size = n - (8 + sizeof_root w);
  free_items = 1;
}

abbrev pub new_block : AddrType → ℕ → Block
new_block w n = record {
  addr = w;
  type = 0;
  alloc = true;
  linked = true;
  size = n - (8 + sizeof_root w);
  prev = 0;
  next = 0;
}

abbrev empty_root : AddrType → Root
empty_root w = record {
  addr = w;
  size = sizeof_root w;
  alloc = 0;
  alloc_size = 0;
  alloc_items = 0;
  free = 0;
  free_last = 0;
  free_size = 0;
  free_items = 0;
}

init-run :
    (w : AddrType) (n : ℕ) (h : Heap)
    → h.root ≡ empty_root w
    → n < 2 ^ 63
    → n < addr_limit w
    → 8 + sizeof_root w < n
    → (g : ℕ → Block)
    → init_block
        (8 + sizeof_root w)
        (bare w)
        (n - (8 + sizeof_root w))
        (record h { root = new_root w n })
      ≡ ok tt (record h { root = new_root w n; blocks = g })
    → init_iomage n w h
      ≡ (do
        set_linked (8 + sizeof_root w)
        put_block (8 + sizeof_root w) (λ b. record b { alloc = true })
        clear_type (8 + sizeof_root w))
          (record h { root = new_root w n; blocks = g })
unfolding init_iomage set_free set_free_last set_free_size set_free_items
init-run w n h e small fit room g run =
    let size : (n + 2 ^ 64 - (8 + sizeof_root w)) % 2 ^ 64 ≡ n - (8 + sizeof_root w) =
      omega arith in
    let a : ltb (8 + sizeof_root w) (addr_limit w) ≡ true = ground arith in
    let s : ltb (n - (8 + sizeof_root w)) (addr_limit w) ≡ true = ground arith in
    let o : ltb 1 (addr_limit w) ≡ true = ground arith in rw (e, size) (ground (arith, run))

init_iomage-ok :
    (w : AddrType) (n : ℕ) (h : Heap)
    → h.root ≡ empty_root w
    → n < 2 ^ 63
    → n < addr_limit w
    → 8 + sizeof_root w < n
    → (g : ℕ → Block) × (init_iomage n w h ≡ ok tt (record h { root = new_root w n; blocks = g }))
      × (g (8 + sizeof_root w) ≡ new_block w n)
      × ((q : ℕ) → q ≢ 8 + sizeof_root w → g q ≡ h.blocks q)
init_iomage-ok w n h e small fit room =
    let a = 8 + sizeof_root w in
    let (g, run, at) =
      init_block_lem a (bare w) (n - a) (record h { root = new_root w n }) (ground arith) in
    let aa = at a in
    let g₁ = update g a (record (g a) { linked = true }) in
    let g₂ = update g₁ a (record (g₁ a) { alloc = true }) in
    let g₃ = update g₂ a (record (g₂ a) { type = 0 }) in
    (
      g₃,
      init-run w n h e small fit room g run,
      ground arith,
      λ q far. let aq = at q in ground arith,
    )

-- Where the free block of a new image ends, and where the image ends.
abbrev pub Fresh : AddrType → ℕ → ℕ → Heap → Type 0
Fresh w initial max h =
    (h.root ≡ new_root w (round_up (initial + 8)))
    × (h.blocks (8 + sizeof_root w) ≡ new_block w (round_up (initial + 8)))
    × (h.addr_type ≡ w)
    × (h.size_alloc ≡ initial + 8)
    × (h.size_used ≡ 0)
    × (h.free_entries ≡ 0)
    × (h.size_max ≡ (if max == 0 then vbheap_max w else max))
    × (h.vblock_min ≡ vbheap_min w)
    × ((q : ℕ) → q ≢ 8 + sizeof_root w → (h.blocks q).alloc ≡ false)

create_iomage-run :
    (w : AddrType) (initial max : ℕ) (h : Heap)
    → w ≢ addr08
    → initial ≤ (if max == 0 then vbheap_max w else max)
    → max ≤ vbheap_max w
    → init_iomage
        (round_up (initial + 8))
        w
        (blank w (initial + 8) (if max == 0 then vbheap_max w else max) (empty_root w))
      ≡ ok tt h
    → create_iomage w initial max ≡ some h
unfolding create_iomage check_create_width init
create_iomage-run addr08 initial max h ne le top run = absurd (ne refl)
create_iomage-run addr16 initial max h ne le top run = ground arith
create_iomage-run addr32 initial max h ne le top run = ground arith
create_iomage-run addr64 initial max h ne le top run = ground arith

pub create_iomage-ok :
    (w : AddrType) (initial max : ℕ)
    → w ≢ addr08
    → initial ≤ (if max == 0 then vbheap_max w else max)
    → max ≤ vbheap_max w
    → round_up (initial + 8) < addr_limit w
    → sizeof_root w < initial
    → initial < 2 ^ 62
    → (h : Heap) × (create_iomage w initial max ≡ some h) × Fresh w initial max h
create_iomage-ok w initial max ne le top fit room small =
    let max' = if max == 0 then vbheap_max w else max in
    let (g, run, at, rest) =
      init_iomage-ok w (round_up (initial + 8)) (blank w (initial + 8) max' (empty_root w)) refl
        (omega arith) fit (omega arith) in
    (
      record (blank w (initial + 8) max' (empty_root w)) {
        root = new_root w (round_up (initial + 8));
        blocks = g;
      },
      create_iomage-run w initial max _ ne le top run,
      (refl, at, refl, refl, refl, refl, refl, refl, λ q far. let e = rest q far in ground arith),
    )
