-- ===== src/Heap/Extend/Theorem.antt =====
-- What `P2PmsgHeap_ResizeIOMAGE` promises on a well-formed heap.
use msgcore.Prelude.{
  ℕ, ◌+◌, ◌-◌, ◌≤◌, ◌<◌, ◌≡◌, ◌≢◌, refl, ◌⊎◌, inl, inr, Bool, true, false, none, some, List, has,
  length, arith, ltb, Bool-cases,
}
use msgcore.Width.{addr_limit, vbheap_min}
use msgcore.Heap.{Block, Foot, Heap, ok, throw, exceeds_max}
use msgcore.Heap.Chain.{Chain-last, Chain-not-null}
use msgcore.Heap.Chain.Append.{append, Chain-append, has-append}
use msgcore.Heap.Chain.Totals.{length-le-total}
use msgcore.Heap.WellFormed.{IsWellFormed, arena, starts}
use msgcore.Heap.Collate.{Honest, SameHeader}
use msgcore.Heap.Validate.{valid_iomage}
use msgcore.Heap.Validate.FreeWalk.{valid_iomage-ok}
use msgcore.Heap.Grow.{arena_room, cap_growth, oversized, extend, append_free, resize}
use msgcore.Heap.Extend.{Extends, Extends-IsWellFormed}
use msgcore.Heap.Extend.Run.{extended, tailed, tail_blocks, extend_lem, append_free_lem}

resize-grown :
    (gate oversize v : Bool) (n x : ℕ) (h h₀ h₁ h₂ : Heap)
    → valid_iomage gate h ≡ ok v h₀
    → cap_growth h₀ n (oversized h₀ n oversize) ≡ some x
    → extend x h₀ ≡ ok tt h₁
    → append_free h₀.size_alloc x h₁ ≡ ok tt h₂
    → resize gate n oversize h ≡ ok x h₂
unfolding resize
resize-grown gate oversize v n x h h₀ h₁ h₂ r₁ r₂ r₃ r₄ = rw (r₁, r₂, r₃, r₄) refl

resize-refused :
    (gate oversize v : Bool) (n : ℕ) (h h₀ : Heap)
    → valid_iomage gate h ≡ ok v h₀
    → cap_growth h₀ n (oversized h₀ n oversize) ≡ none
    → resize gate n oversize h ≡ throw exceeds_max h₀
unfolding resize
resize-refused gate oversize v n h h₀ r₁ r₂ = rw (r₁, r₂) refl

cap_growth-some :
    (h : Heap) (n : ℕ) (oversize : Bool)
    → n ≤ h.size_max - h.size_alloc
    → (x : ℕ) × (cap_growth h n (oversized h n oversize) ≡ some x)
      × (n ≤ x)
      × (x ≤ h.size_max - h.size_alloc)
unfolding cap_growth oversized arena_room
cap_growth-some h n oversize le =
    let y = oversized h n oversize in
    let more : n ≤ y = ground arith in
    elim (Bool-cases (ltb (h.size_max - h.size_alloc) y)) [
      | inl over ↦ (h.size_max - h.size_alloc, ground arith, le, omega arith)
      | inr within ↦ (y, ground arith, more, ground arith)
    ]

cap_growth-none :
    (h : Heap) (n : ℕ) (oversize : Bool)
    → h.size_max - h.size_alloc < n
    → cap_growth h n (oversized h n oversize) ≡ none
unfolding cap_growth arena_room
cap_growth-none h n oversize lt = ground arith

-- The heap after growth: one free block more, at the old end.
pub record Grows (h h' : Heap) (fl al : List ℕ) (x : ℕ) : Type 0 where
  pub well_formed : IsWellFormed (arena h') (append fl h.size_alloc) al 0
  pub honest : Honest h fl → Honest h' (append fl h.size_alloc)
  pub untouched : (q : ℕ) → has q al ≡ true → SameHeader (h.blocks q) (h'.blocks q)
  pub tail : (h'.blocks h.size_alloc).size ≡ x
  pub size_alloc : h'.size_alloc ≡ h.size_alloc + x
  pub size_used : h'.size_used ≡ h.size_used
  pub size_max : h'.size_max ≡ h.size_max
  pub addr_type : h'.addr_type ≡ h.addr_type
  pub vblock_min : h'.vblock_min ≡ h.vblock_min

-- A request for `n` more bytes is refused if the arena has no room for them under its maximum, and
-- otherwise met with `n` or more that stay under it.
abbrev pub Resizes : Bool → Bool → ℕ → Heap → List ℕ → List ℕ → Type 0
Resizes gate oversize n h fl al =
    (h.size_max - h.size_alloc < n
      → resize gate n oversize h ≡ throw exceeds_max (record h { free_entries = length fl }))
    × (n ≤ h.size_max - h.size_alloc
        → (x : ℕ) × (h' : Heap) × (resize gate n oversize h ≡ ok x h')
          × (n ≤ x)
          × (h.size_alloc + x ≤ h.size_max)
          × Grows h h' fl al x)

module _ (h : Heap) {fl al : List ℕ} (wf : IsWellFormed (arena h) fl al 0) (x : ℕ)
    (small : h.size_alloc + x < 0x8000_0000) (fits : h.size_alloc + x < addr_limit h.addr_type)
    (least : vbheap_min h.addr_type ≤ x) where
  keys :
      (h.root.free_size + x < 0x8000_0000)
      × (h.root.free_size + x < addr_limit h.root.addr)
      × (h.root.free_items ≤ h.root.free_size)
      × (0 < x)
      × (0 < h.size_alloc)
  keys =
      let lf =
        length-le-total h.blocks fl (λ q iq. let b = wf.block q (ground arith) in omega arith) in
      let fs = wf.free_size in
      let fi = wf.free_items in
      let co = wf.conserved in
      let rwd = wf.root_width in
      (omega arith, rw rwd (omega arith), omega arith, ground arith, ground arith)

  last_free :
      (h.root.free_last ≡ 0)
      ⊎ ((has h.root.free_last fl ≡ true)
          × (h.root.free_last < h.size_alloc)
          × ((h.blocks h.root.free_last).addr ≡ h.addr_type))
  last_free = elim (Chain-last h.blocks 0 h.root.free h.root.free_last fl wf.chain) [
    | inl z ↦ inl z
    | inr i ↦ let b = wf.block h.root.free_last (ground arith) in inr (i, ground arith, b.width)
  ]

  not_listed : (q : ℕ) → starts fl al q ≡ true → q < h.size_alloc
  not_listed q s = let b = wf.block q s in ground arith

  module _ (k : ℕ) (g : ℕ → Block) (y : ℕ → Foot)
      (at : (q : ℕ)
        → g q
          ≡ tail_blocks
              (extended (record h { free_entries = k }) x).blocks
              h.addr_type
              h.size_alloc
              x
              h.root.free_last
              q) where
    abbrev grown : Heap
    grown = record (extended (record h { free_entries = k }) x) {
      root = tailed (extended h x).root h.size_alloc;
      blocks = g;
      feet = y;
    }

    grown-Extends : Extends (arena h) (arena grown) fl x
    grown-Extends =
        let e = h.size_alloc in
        let ae = at e in
        let z = Chain-not-null h.blocks 0 h.root.free h.root.free_last fl wf.chain in
        let (k₁, k₂, k₃, k₄, k₅) = keys in
        let out : has e fl ≡ false = elim (Bool-cases (has e fl)) [
          | inl hit ↦ absurd (let lt = not_listed e (ground arith) in omega arith)
          | inr miss ↦ miss
        ] in
        let lf = last_free in
        record {
          size = λ q lt. let aq = at q in ground arith;
          addr = λ q lt. let aq = at q in ground arith;
          alloc = λ q lt. let aq = at q in ground arith;
          linked = λ q lt. let aq = at q in ground arith;
          type = λ q lt. let aq = at q in ground arith;
          tail_size = ground arith;
          tail_addr = ground arith;
          tail_bits = (ground arith, ground arith, ground arith);
          addr_type = refl;
          size_alloc = refl;
          root_width = refl;
          chain =
              Chain-append h.blocks g e 0 h.root.free h.root.free_last fl wf.chain out
                (ground arith)
                (λ q iq.
                  let aq = at q in
                  let lt = not_listed q (ground arith) in
                  let nz : q ≢ 0 = ground arith in (ground arith, ground arith))
                (ground arith, ground arith);
          first = refl;
          free_size = refl;
          alloc_size = refl;
          free_items = refl;
          alloc_items = refl;
        }

    grown-Grows : Grows h grown fl al x
    grown-Grows =
        let ae = at h.size_alloc in
        record {
          well_formed =
              Extends-IsWellFormed (arena h) (arena grown) wf x least small fits grown-Extends;
          honest = λ hon p fp.
              let ap = at p in
              let hp = hon p in
              let ha = has-append p h.size_alloc fl in
              elim (Bool-cases (ltb p h.size_alloc)) [
                | inl lt ↦ ground arith
                | inr ge ↦ ground arith
              ];
          untouched = λ q iq.
              let aq = at q in
              let lt = not_listed q (ground arith) in
              record {
                addr = ground arith;
                type = ground arith;
                alloc = ground arith;
                linked = ground arith;
                size = ground arith;
              };
          tail = ground arith;
          size_alloc = refl;
          size_used = refl;
          size_max = refl;
          addr_type = refl;
          vblock_min = refl;
        }

  grow-run :
      (k : ℕ)
      → (g : ℕ → Block) × (y : ℕ → Foot) × (append_free h.size_alloc x
            (extended (record h { free_entries = k }) x)
          ≡ ok tt (record (extended (record h { free_entries = k }) x) {
            root = tailed (extended h x).root h.size_alloc;
            blocks = g;
            feet = y;
          }))
        × ((q : ℕ)
            → g q
              ≡ tail_blocks
                  (extended (record h { free_entries = k }) x).blocks
                  h.addr_type
                  h.size_alloc
                  x
                  h.root.free_last
                  q)
  grow-run k =
      let (k₁, k₂, k₃, k₄, k₅) = keys in
      let lf = last_free in
      let rwd = wf.root_width in
      append_free_lem h.size_alloc x (extended (record h { free_entries = k }) x) k₅ (omega arith)
        (omega arith) (omega arith) rwd (ground arith) (ground arith)

pub resize-ok :
    (gate oversize : Bool) (n : ℕ) (h : Heap) (fl al : List ℕ)
    → IsWellFormed (arena h) fl al 0
    → h.size_max < 0x8000_0000
    → h.size_max < addr_limit h.addr_type
    → h.size_alloc ≤ h.size_max
    → vbheap_min h.addr_type ≤ n
    → Resizes gate oversize n h fl al
resize-ok gate oversize n h fl al wf small fit under least =
    let h₀ = record h { free_entries = length fl } in
    let valid = valid_iomage-ok h wf gate in
    (
      λ lt. resize-refused gate oversize _ n h h₀ valid (cap_growth-none h₀ n oversize lt),
      λ le.
          let (x, cap, nx, room) = cap_growth-some h₀ n oversize le in
          let s : h.size_alloc + x < 0x8000_0000 = omega arith in
          let f : h.size_alloc + x < addr_limit h.addr_type = omega arith in
          let l : vbheap_min h.addr_type ≤ x = omega arith in
          let (k₁, k₂, k₃, k₄, k₅) = keys h wf x s f l in
          let (g, y, run, at) = grow-run h wf x s f l (length fl) in
          (
            x,
            grown h wf x s f l (length fl) g y at,
            resize-grown gate oversize _ n x h h₀ (extended h₀ x) _ valid cap
                (extend_lem x h₀ k₁ k₂ k₃ k₄) run,
            nx,
            omega arith,
            grown-Grows h wf x s f l (length fl) g y at,
          ),
    )
