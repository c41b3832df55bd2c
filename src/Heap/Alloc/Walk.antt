-- ===== src/Heap/Alloc/Walk.antt =====
-- The allocator's walk over the free list of a well-formed heap.
use msgcore.Prelude.{
  ℕ, zero, suc, ◌+◌, ◌-◌, ◌≤◌, ◌<◌, ◌≡◌, ◌≢◌, refl, ◌∙◌, sym, subst, ◌⊎◌, inl, inr, Bool, true,
  false, ◌||◌, List, [], ◌∷◌, has, length, arith, ltb, leb, ◌==◌, Bool-cases,
}
use msgcore.Width.{vbheap_min}
use msgcore.Heap.{Block, Heap, Outcome, ok, sizenn, block2phys, branch, pure}
use msgcore.Heap.Chain.{Chain, Chain-not-null}
use msgcore.Heap.WellFormed.{IsWellFormed, arena}
use msgcore.Heap.FreeList.{collate}
use msgcore.Heap.Collate.{Honest, SameHeader, SameImage, Coalesces, rank}
use msgcore.Heap.Collate.Loop.{collate-ok}
use msgcore.Heap.Alloc.{Fit, better, fit_walk, max_fit_walk}

-- The successor of a block stands one rank behind it.
Chain-rank :
    (f : ℕ → Block) (p c last a : ℕ) (xs : List ℕ)
    → Chain f p c xs last
    → has a xs ≡ true
    → ((f a).next ≡ 0) ⊎ ((has (f a).next xs ≡ true) × (rank (f a).next xs + 1 ≡ rank a xs))
Chain-rank f p c last a [] h i = cc
Chain-rank f p c last a (x ∷ []) (e, ne, out, back, rest) i = ground arith
Chain-rank f p c last a (x ∷ y ∷ xs) (e, ne, out, back, rest) i =
    let (ey, ney, oy, by, r) = rest in
    ground (arith, Chain-rank f x (f x).next last a (y ∷ xs) rest)

-- What the walk leaves of the heap.
pub record Walks (h h' : Heap) (fl fl' al : List ℕ) : Type 0 where
  pub well_formed : IsWellFormed (arena h') fl' al 0
  pub honest : Honest h' fl'
  pub untouched : (q : ℕ) → has q al ≡ true → SameHeader (h.blocks q) (h'.blocks q)
  pub image : SameImage h h'
  pub shorter : length fl' ≤ length fl

SameImage-trans : {h h' h'' : Heap} → SameImage h h' → SameImage h' h'' → SameImage h h''
SameImage-trans s t = record {
  addr_type = t.addr_type ∙ s.addr_type;
  size_alloc = t.size_alloc ∙ s.size_alloc;
  size_used = t.size_used ∙ s.size_used;
  size_max = t.size_max ∙ s.size_max;
  vblock_min = t.vblock_min ∙ s.vblock_min;
  alloc_size = t.alloc_size ∙ s.alloc_size;
  alloc_items = t.alloc_items ∙ s.alloc_items;
}

-- What the walk answers: null, or an offset in the image, and in a first-fit walk a free block that
-- is large enough.
abbrev pub Answer : Bool → ℕ → Heap → List ℕ → ℕ → Type 0
Answer first n h fl r =
    (r ≡ 0)
    ⊎ ((r < h.size_alloc)
        × (0 < r)
        × ((first ≡ true) → (has r fl ≡ true) × (n ≤ (h.blocks r).size)))

abbrev pub Walked : ℕ → Bool → ℕ → Fit → ℕ → Heap → List ℕ → List ℕ → Type 0
Walked more first n f a h fl al =
    (h' : Heap) × (fl' : List ℕ) × (r : ℕ) × (fit_walk more first n f a h ≡ ok r h')
    × Walks h h' fl fl' al
    × Answer first n h' fl' r

-- The best so far is null or in the image, and null in a first-fit walk.
abbrev pub IsFit : Bool → Heap → Fit → Type 0
IsFit first h f = (f.best ≡ 0) ⊎ ((f.best < h.size_alloc) × (0 < f.best) × (first ≡ false))

walk-end :
    (more : ℕ) (first : Bool) (n : ℕ) (f : Fit) (h : Heap) (fl al : List ℕ)
    → IsWellFormed (arena h) fl al 0
    → Honest h fl
    → IsFit first h f
    → Walked more first n f 0 h fl al
unfolding fit_walk
walk-end zero first n f h fl al wf hon fit = (
  h,
  fl,
  f.best,
  refl,
  record {
    well_formed = wf;
    honest = hon;
    untouched =
        λ q i. record { addr = refl; type = refl; alloc = refl; linked = refl; size = refl };
    image = record {
      addr_type = refl;
      size_alloc = refl;
      size_used = refl;
      size_max = refl;
      vblock_min = refl;
      alloc_size = refl;
      alloc_items = refl;
    };
    shorter = omega arith;
  },
  ground arith,
)
walk-end (suc more) first n f h fl al wf hon fit = (
  h,
  fl,
  f.best,
  refl,
  record {
    well_formed = wf;
    honest = hon;
    untouched =
        λ q i. record { addr = refl; type = refl; alloc = refl; linked = refl; size = refl };
    image = record {
      addr_type = refl;
      size_alloc = refl;
      size_used = refl;
      size_max = refl;
      vblock_min = refl;
      alloc_size = refl;
      alloc_items = refl;
    };
    shorter = omega arith;
  },
  ground arith,
)

-- One turn, once the block has been collated.
abbrev turn : ℕ → Bool → ℕ → Fit → ℕ → Block → Heap → Outcome ℕ
turn more first n f a b = branch (ltb (sizenn b) n) (fit_walk more first n f b.next) (
    branch (first || ltb (sizenn b - n) (vbheap_min b.addr)) (pure a) (
      branch (leb max_fit_walk (better f a (sizenn b)).fits) (pure (better f a (sizenn b)).best)
        (fit_walk more first n (better f a (sizenn b)) b.next)))

walk-turn :
    (more : ℕ) (first : Bool) (n : ℕ) (f : Fit) (a m : ℕ) (h h₁ : Heap)
    → (a == 0) ≡ false
    → collate a h ≡ ok m h₁
    → block2phys a h₁ ≡ ok tt h₁
    → fit_walk (suc more) first n f a h ≡ turn more first n f a (h₁.blocks a) h₁
unfolding fit_walk
walk-turn more first n f a m h h₁ nz r₁ r₂ = rw (nz, r₁, r₂) refl

Walks-trans :
    {h h' h'' : Heap} {fl fl' fl'' al : List ℕ} {a : ℕ}
    → Coalesces h h' fl fl' al a
    → Walks h' h'' fl' fl'' al
    → Walks h h'' fl fl'' al
Walks-trans c w = record {
  well_formed = w.well_formed;
  honest = w.honest;
  untouched = λ q i.
      let s = c.untouched q i in
      let t = w.untouched q i in
      record {
        addr = t.addr ∙ s.addr;
        type = t.type ∙ s.type;
        alloc = t.alloc ∙ s.alloc;
        linked = t.linked ∙ s.linked;
        size = t.size ∙ s.size;
      };
  image = SameImage-trans c.image w.image;
  shorter = let x = c.shorter in let y = w.shorter in omega arith;
}

same-Walks :
    (h : Heap) (fl al : List ℕ) → IsWellFormed (arena h) fl al 0 → Honest h fl → Walks h h fl fl al
same-Walks h fl al wf hon = record {
  well_formed = wf;
  honest = hon;
  untouched = λ q i. record { addr = refl; type = refl; alloc = refl; linked = refl; size = refl };
  image = record {
    addr_type = refl;
    size_alloc = refl;
    size_used = refl;
    size_max = refl;
    vblock_min = refl;
    alloc_size = refl;
    alloc_items = refl;
  };
  shorter = omega arith;
}

-- The walk from a block of the list, or from its end, with a number of turns that is no less than
-- the blocks from there on.
abbrev pub Cursor : ℕ → ℕ → List ℕ → Type 0
Cursor more a fl = (a ≡ 0) ⊎ ((a ≢ 0) × (has a fl ≡ true) × (rank a fl ≤ more))

rank-pos : (a : ℕ) (xs : List ℕ) → has a xs ≡ true → 0 < rank a xs
rank-pos a [] i = absurd (ground arith)
rank-pos a (x ∷ xs) i = ground (arith, rank-pos a xs)

-- After a turn.
abbrev Turned : ℕ → Bool → ℕ → Fit → ℕ → Heap → List ℕ → List ℕ → Type 0
Turned more first n f a h fl al =
    (h' : Heap) × (fl' : List ℕ) × (r : ℕ) × (turn more first n f a (h.blocks a) h ≡ ok r h')
    × Walks h h' fl fl' al
    × Answer first n h' fl' r

IsFit-better :
    (first : Bool) (h : Heap) (f : Fit) (a n : ℕ)
    → first ≡ false
    → 0 < a
    → a < h.size_alloc
    → IsFit first h f
    → IsFit first h (better f a n)
unfolding better
IsFit-better first h f a n walks pos lt fit = ground arith

turn-ok :
    (more : ℕ) (first : Bool) (n : ℕ) (f : Fit) (a : ℕ) (h : Heap) (fl al : List ℕ)
    → IsWellFormed (arena h) fl al 0
    → Honest h fl
    → has a fl ≡ true
    → IsFit first h f
    → ((f : Fit) → IsFit first h f → Walked more first n f (h.blocks a).next h fl al)
    → Turned more first n f a h fl al
turn-ok more first n f a h fl al wf hon i fit ih =
    let b = wf.block a (ground arith) in
    let ex = b.exact in
    let ins : a < h.size_alloc = ground arith in
    let pos : 0 < a = ground arith in
    elim (Bool-cases (ltb (sizenn (h.blocks a)) n)) [
      | inl short ↦ let (h', fl', r, run, w, an) = ih f fit in (h', fl', r, rw short run, w, an)
      | inr enough ↦
          let le : n ≤ (h.blocks a).size = ground arith in
          elim (Bool-cases
            (first || ltb (sizenn (h.blocks a) - n) (vbheap_min (h.blocks a).addr))) [
              | inl take ↦ (
                h,
                fl,
                a,
                rw (enough, take) refl,
                same-Walks h fl al wf hon,
                inr (ins, pos, λ e. (i, le)),
              )
              | inr go ↦
                  let walks : first ≡ false = ground arith in
                  let f' = better f a (sizenn (h.blocks a)) in
                  let fit' = IsFit-better first h f a (sizenn (h.blocks a)) walks pos ins fit in
                  elim (Bool-cases (leb max_fit_walk f'.fits)) [
                    | inl full ↦ (
                      h,
                      fl,
                      f'.best,
                      rw (enough, go, full) refl,
                      same-Walks h fl al wf hon,
                      ground arith,
                    )
                    | inr on ↦
                        let (h', fl', r, run, w, an) = ih f' fit' in
                        (h', fl', r, rw (enough, go, on) run, w, an)
                  ]
            ]
    ]

-- The allocator's walk over the free list of a well-formed and honest heap ends without a throw if
-- it may visit as many blocks as stand from its start on. The heap stays well-formed and honest, and
-- allocated blocks keep their headers. The answer is null or an offset in the image, and that of a
-- first-fit walk is null or a free block that has the bytes asked for.
pub fit_walk-ok :
    (more : ℕ) (first : Bool) (n : ℕ) (f : Fit) (a : ℕ) (h : Heap) (fl al : List ℕ)
    → IsWellFormed (arena h) fl al 0
    → Honest h fl
    → Cursor more a fl
    → IsFit first h f
    → Walked more first n f a h fl al
unfolding block2phys
fit_walk-ok more first n f a h fl al wf hon (inl z) fit =
    subst (λ a. Walked more first n f a h fl al) (sym z)
      (walk-end more first n f h fl al wf hon fit)
fit_walk-ok zero first n f a h fl al wf hon (inr (nz, i, le)) fit =
    absurd (let p = rank-pos a fl i in omega arith)
fit_walk-ok (suc more) first n f a h fl al wf hon (inr (nz, i, le)) fit =
    let (h₁, fl₁, run, co, s) = collate-ok h fl al wf a i in
    let wf₁ = co.well_formed in
    let hon₁ = co.honest hon in
    let kept = co.kept in
    let im = co.image in
    let sa = im.size_alloc in
    let so = co.sooner a kept in
    let b = wf₁.block a (ground arith) in
    let cr = Chain-rank h₁.blocks 0 h₁.root.free h₁.root.free_last a fl₁ wf₁.chain kept in
    let cn = Chain-not-null h₁.blocks 0 h₁.root.free h₁.root.free_last fl₁ wf₁.chain in
    let cursor : Cursor more (h₁.blocks a).next fl₁ = ground arith in
    let fit₁ : IsFit first h₁ f = ground arith in
    let (h₂, fl₂, r, on, w, an) =
      turn-ok more first n f a h₁ fl₁ al wf₁ hon₁ kept fit₁
        (λ g fg. fit_walk-ok more first n g (h₁.blocks a).next h₁ fl₁ al wf₁ hon₁ cursor fg) in
    (
      h₂,
      fl₂,
      r,
      walk-turn more first n f a _ h h₁ (ground arith) run (ground arith) ∙ on,
      Walks-trans co w,
      an,
    )
