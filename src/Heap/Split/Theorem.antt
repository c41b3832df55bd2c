-- ===== src/Heap/Split/Theorem.antt =====
-- What `P2PmsgHeap_SplitAllocIOMAGE` promises on a well-formed heap.
use msgcore.Prelude.{
  ℕ, ◌+◌, ◌-◌, ◌%◌, ◌^◌, ◌≤◌, ◌<◌, ◌≡◌, ◌≢◌, ◌↔◌, ◌⊎◌, refl, subst, inl, inr, true, false, List,
  ◌∷◌, has, arith, ltb, leb, ◌==◌, Bool-cases,
}
use msgcore.Width.{vbheap_min}
use msgcore.Heap.{Block, Heap, Foot, ok, sizenn, block2phys}
use msgcore.Heap.Chain.{
  Chain, remove, has-remove, Chain-IsDistinct, Chain-next, Chain-prev, Chain-not-null, Chain-links,
}
use msgcore.Heap.Chain.Rename.{renamed, rename, has-rename, Stands, Chain-rename}
use msgcore.Heap.FreeList.{take_whole, split_alloc}
use msgcore.Heap.WellFormed.{IsWellFormed, arena}
use msgcore.Heap.Collate.{Honest, SameHeader}
use msgcore.Heap.Take.{Takes-IsWellFormed}
use msgcore.Heap.Take.Run.{take_whole-ok, taken}
use msgcore.Heap.Split.{Splits, Splits-IsWellFormed, fresh}
use msgcore.Heap.Split.Correct.{split_blocks, split, split-ok}

-- What handing out a free block changes: the block belongs to the allocated ones, and they keep
-- their headers.
pub record Hands (h h' : Heap) (fl al fl' : List ℕ) (a m : ℕ) : Type 0 where
  pub well_formed : IsWellFormed (arena h') fl' (a ∷ al) a
  pub honest : Honest h fl → Honest h' fl'
  pub size : (h'.blocks a).size ≡ m
  pub untouched : (q : ℕ) → has q al ≡ true → SameHeader (h.blocks q) (h'.blocks q)
  pub addr_type : h'.addr_type ≡ h.addr_type
  pub size_alloc : h'.size_alloc ≡ h.size_alloc
  pub size_used : h'.size_used ≡ h.size_used
  pub size_max : h'.size_max ≡ h.size_max
  pub vblock_min : h'.vblock_min ≡ h.vblock_min

module _ (h : Heap) {fl al : List ℕ} (wf : IsWellFormed (arena h) fl al 0) (a n : ℕ)
    (i : has a fl ≡ true) where
  -- A block's link names `a` just where `a`'s other link names the block.
  abbrev Ends : ℕ → Type 0
  Ends q =
      (((h.blocks q).prev ≡ a) ↔ ((q ≡ (h.blocks a).next) × (q ≢ 0)))
      × (((h.blocks q).next ≡ a) ↔ ((q ≡ (h.blocks a).prev) × (q ≢ 0)))

  ends : (q : ℕ) → has q fl ≡ true → Ends q
  ends q iq =
      let z = Chain-not-null h.blocks 0 h.root.free h.root.free_last fl wf.chain in
      let cna = Chain-next h.blocks 0 h.root.free h.root.free_last a fl wf.chain i in
      let cpa = Chain-prev h.blocks 0 h.root.free h.root.free_last a fl wf.chain z i in
      let cnq = Chain-next h.blocks 0 h.root.free h.root.free_last q fl wf.chain iq in
      let cpq = Chain-prev h.blocks 0 h.root.free h.root.free_last q fl wf.chain z iq in
      ((λ e. ground arith, λ e. ground arith), (λ e. ground arith, λ e. ground arith))

  module _ (front : vbheap_min h.addr_type ≤ n)
      (back : n + vbheap_min h.addr_type ≤ (h.blocks a).size) (g : ℕ → Block) (x : ℕ → Foot)
      (at : (q : ℕ) → g q ≡ split_blocks h.blocks h.addr_type a (a + n) n q) where
    far : (q : ℕ) → has q fl ≡ true → q ≢ a + n
    far q iq = let b = wf.block a (ground arith) in ground (arith, b.apart q)

    stands : (q : ℕ) → has q fl ≡ true → Stands h.blocks g a (a + n) q
    stands q iq =
        let z = Chain-not-null h.blocks 0 h.root.free h.root.free_last fl wf.chain in
        let (ep, en) = ends q iq in
        let lq = Chain-links h.blocks 0 h.root.free h.root.free_last q fl wf.chain z iq in
        let fq = far q iq in
        let pos : q ≢ 0 = ground arith in
        let ar = at (renamed a (a + n) q) in
        elim (Bool-cases (q == a)) [
          | inl hit ↦ record { prev = ground arith; next = ground arith }
          | inr miss ↦ record { prev = ground arith; next = ground arith }
        ]

    split-Splits : Splits (arena h) (arena (split h a n g x)) fl a (a + n) n
    split-Splits =
        let b = wf.block a (ground arith) in
        let wd = b.width in
        let ac = b.alloc in
        let pos : a ≢ 0 = ground arith in
        let ne : a ≢ a + n = ground arith in
        let o : has (a + n) fl ≡ false = ground (arith, far (a + n)) in
        let ch =
          Chain-rename h.blocks g a (a + n) pos (ground arith) 0 h.root.free h.root.free_last fl
            wf.chain o stands in
        record {
          size = λ q. let e = at q in ground arith;
          addr = λ q. let e = at q in ground arith;
          alloc = λ q. let e = at q in ground arith;
          type = λ q ne. let e = at q in ground arith;
          linked = λ q ne. let e = at q in ground arith;
          addr_type = refl;
          size_alloc = refl;
          root_width = refl;
          chain =
              subst
                (λ p.
                  Chain g p (renamed a (a + n) h.root.free) (rename a (a + n) fl)
                    (renamed a (a + n) h.root.free_last))
                (ground arith) ch;
          first = wf.first;
          free_size = refl;
          alloc_size = refl;
          free_items = refl;
          alloc_items = refl;
        }

  whole-run :
      (h' : Heap)
      → n ≤ (h.blocks a).size
      → (h.blocks a).size < n + vbheap_min h.addr_type
      → take_whole a (h.blocks a) (record h { dirty = true }) ≡ ok (h.blocks a).size h'
      → split_alloc a n h ≡ ok (h.blocks a).size h'
  unfolding split_alloc block2phys
  whole-run h' le lt run =
      let b = wf.block a (ground arith) in
      let ex = b.exact in
      let wd = b.width in
      let small = wf.small in
      let r₀ : block2phys a h ≡ ok tt h = ground arith in
      let extra : (sizenn (h.blocks a) + 2 ^ 64 - n) % 2 ^ 64 ≡ (h.blocks a).size - n =
        ground arith in
      let short : ltb ((h.blocks a).size - n) (vbheap_min (h.blocks a).addr) ≡ true =
        ground arith in
      rw (r₀, extra, short, run) refl

-- What a split of `n` bytes off the block `a` ends in.
abbrev pub Handed : Heap → List ℕ → List ℕ → ℕ → ℕ → Type 0
Handed h fl al a n =
    (m : ℕ) × (h' : Heap) × (fl' : List ℕ) × (split_alloc a n h ≡ ok m h')
    × (((m ≡ n) × (n + vbheap_min h.addr_type ≤ (h.blocks a).size))
        ⊎ ((m ≡ (h.blocks a).size) × ((h.blocks a).size < n + vbheap_min h.addr_type)))
    × Hands h h' fl al fl' a m

pub split_alloc-ok :
    (h : Heap) (fl al : List ℕ)
    → IsWellFormed (arena h) fl al 0
    → (a n : ℕ) → has a fl ≡ true
    → vbheap_min h.addr_type ≤ n
    → n ≤ (h.blocks a).size
    → Handed h fl al a n
split_alloc-ok h fl al wf a n i front le =
    let dj = wf.disjoint a i in
    elim (Bool-cases (leb (n + vbheap_min h.addr_type) (h.blocks a).size)) [
      | inl room ↦
          let back : n + vbheap_min h.addr_type ≤ (h.blocks a).size = ground arith in
          let (g, x, run, at) = split-ok h wf a n i front back in
          let sp = split-Splits h wf a n i front back g x at in
          let w =
            Splits-IsWellFormed (arena h) (arena (split h a n g x)) wf a (a + n) n i refl front back
              sp in
          let fr = fresh (arena h) (arena (split h a n g x)) wf a (a + n) n i refl front back sp in
          let least : 0 < vbheap_min h.addr_type = ground arith in
          (
            n,
            split h a n g x,
            rename a (a + n) fl,
            run,
            inl (refl, back),
            record {
              well_formed = w;
              honest = λ hon p fp.
                  let e = at p in
                  let hp = hon p in
                  let o : has (a + n) fl ≡ false = ground arith in
                  let hr = has-rename a (a + n) p fl o in ground arith;
              size = let e = at a in ground arith;
              untouched = λ q iq.
                  let e = at q in
                  let ne : (q == a) ≡ false = ground arith in
                  let ne' : (q == a + n) ≡ false = ground arith in
                  record {
                    addr = ground arith;
                    type = ground arith;
                    alloc = ground arith;
                    linked = ground arith;
                    size = ground arith;
                  };
              addr_type = refl;
              size_alloc = refl;
              size_used = refl;
              size_max = refl;
              vblock_min = refl;
            },
          )
      | inr tight ↦
          let lt : (h.blocks a).size < n + vbheap_min h.addr_type = ground arith in
          let h₀ = record h { dirty = true } in
          let df = Chain-IsDistinct h.blocks 0 h.root.free h.root.free_last fl wf.chain in
          let (g, run, at, tk) = take_whole-ok h₀ wf a i in
          (
            (h.blocks a).size,
            taken h₀ a g,
            remove a fl,
            whole-run h wf a n i (taken h₀ a g) le lt run,
            inr (refl, lt),
            record {
              well_formed = Takes-IsWellFormed (arena h₀) (arena (taken h₀ a g)) wf a i tk;
              honest = λ hon p fp.
                  let e = at p in let hp = hon p in let hr = has-remove a p fl df in ground arith;
              size = let e = at a in ground arith;
              untouched = λ q iq.
                  let e = at q in
                  let ne : (q == a) ≡ false = ground arith in
                  record {
                    addr = ground arith;
                    type = ground arith;
                    alloc = ground arith;
                    linked = ground arith;
                    size = ground arith;
                  };
              addr_type = refl;
              size_alloc = refl;
              size_used = refl;
              size_max = refl;
              vblock_min = refl;
            },
          )
    ]
