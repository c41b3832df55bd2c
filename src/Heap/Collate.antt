-- ===== src/Heap/Collate.antt =====
-- What coalescing does to a well-formed heap: one neighbour swallowed (MsgVBHeap.cpp).
pub mod Loop
use msgcore.Prelude.{
  ℕ, ◌+◌, ◌-◌, ◌%◌, ◌^◌, ◌≤◌, ◌<◌, ◌≡◌, ◌≢◌, refl, subst, ◌∙◌, ◌⊎◌, inl, inr, Bool, true, false,
  ◌||◌, ◌&&◌, not, List, [], ◌∷◌, has, length, arith, update, ltb, leb, ◌==◌, if◌then◌else◌, some,
  Bool-cases,
}
use msgcore.Width.{AddrType, addr08, addr_limit, vbheap_min, sizeof_root, same_addr}
use msgcore.Root.{Root, int_minus_one, neg_int, set_free_size}
use msgcore.Heap.{Block, Heap, Foot, ok, is_free, sizenn, block2phys, addr2phys, and_then}
use msgcore.Heap.Chain.{
  IsDistinct, Chain, total, remove, SameLinks, Chain-frame, Chain-IsDistinct, has-remove,
  IsDistinct-remove,
}
use msgcore.Heap.Chain.Totals.{total-remove, length-remove, total-frame}
use msgcore.Heap.WellFormed.{IsWellFormed, IsBlock, Arena, arena, first_block, starts}
use msgcore.Heap.Merge.{Grown, Merges, Merges-IsWellFormed}
use msgcore.Heap.FreeList.{is_free_header, isolate, swallow, stamp_foot, collate_step, collate}
use msgcore.Heap.Isolate.{isolated, neighbours, unlinked, isolate-ok, counts, uncounted, moved}

pub stamp_foot-feet : (a : ℕ) (h : Heap) → (x : ℕ → Foot) × (stamp_foot a h ≡ record h { feet = x })
unfolding stamp_foot
stamp_foot-feet a h = ((stamp_foot a h).feet, ground arith)

-- The blocks after `swallow`.
abbrev pub swallowed : (ℕ → Block) → ℕ → ℕ → ℕ → Block
swallowed g a next q =
    if q == next
    then record (g q) { addr = addr08; type = 0; alloc = false; linked = false }
    else if q == a
    then record (g q) { size = (g a).size + (g next).size }
    else g q

-- The same, as `swallow` writes it.
abbrev pub swallow_blocks : (ℕ → Block) → ℕ → ℕ → Block → ℕ → Block
swallow_blocks g a next nb =
    let f = update g a (record (g a) { size = ((g a).size + nb.size) % addr_limit (g a).addr }) in
    update f next (record (f next) { addr = addr08; type = 0; alloc = false; linked = false })

-- The heap after `swallow`.
abbrev pub merged : Heap → ℕ → ℕ → (ℕ → Block) → Heap
merged h a next g = record (isolated h next g) {
  root = record (moved h.root next (h.blocks next)) {
    free_size = h.root.free_size;
    free_items = h.root.free_items - 1;
  };
  blocks = swallow_blocks g a next (h.blocks next);
}

-- The headers agree, the links aside.
pub record SameHeader (b c : Block) : Type 0 where
  pub addr : c.addr ≡ b.addr
  pub type : c.type ≡ b.type
  pub alloc : c.alloc ≡ b.alloc
  pub linked : c.linked ≡ b.linked
  pub size : c.size ≡ b.size

-- The image keeps its extent and the handle its limits.
pub record SameImage (h h' : Heap) : Type 0 where
  pub addr_type : h'.addr_type ≡ h.addr_type
  pub size_alloc : h'.size_alloc ≡ h.size_alloc
  pub size_used : h'.size_used ≡ h.size_used
  pub size_max : h'.size_max ≡ h.size_max
  pub vblock_min : h'.vblock_min ≡ h.vblock_min
  pub alloc_size : h'.root.alloc_size ≡ h.root.alloc_size
  pub alloc_items : h'.root.alloc_items ≡ h.root.alloc_items

-- The block at `q` after `swallow`, in terms of the one before.
swallow_blocks_lem :
    (f g : ℕ → Block) (a next : ℕ)
    → a ≢ next
    → ((q : ℕ) → g q ≡ unlinked f next q)
    → (f a).size + (f next).size < addr_limit (f a).addr
    → (q : ℕ)
    → let n = swallow_blocks g a next (f next) q in
      (n.size ≡ (if q == a then (f a).size + (f next).size else (f q).size))
      × (n.addr ≡ (if q == next then addr08 else (f q).addr))
      × (n.type ≡ (if q == next then 0 else (f q).type))
      × (n.alloc ≡ (if q == next then false else (f q).alloc))
      × (n.linked ≡ (if q == next then false else (f q).linked))
swallow_blocks_lem f g a next ne at fit q =
    let gq = at q in
    let ga = at a in
    elim (Bool-cases (q == next)) [
      | inl hit ↦ (ground arith, ground arith, ground arith, ground arith, ground arith)
      | inr miss ↦ elim (Bool-cases (q == a)) [
        | inl same ↦ (ground arith, ground arith, ground arith, ground arith, ground arith)
        | inr other ↦ (ground arith, ground arith, ground arith, ground arith, ground arith)
      ]
    ]

swallow_blocks-links :
    (g : ℕ → Block) (a next : ℕ) (nb : Block) (xs : List ℕ)
    → SameLinks g (swallow_blocks g a next nb) xs
swallow_blocks-links g a next nb xs q i = (ground arith, ground arith)

-- How many blocks of the list stand at the block or behind it.
abbrev pub rank : ℕ → List ℕ → ℕ
rank a [] = 0
rank a (x ∷ xs) = if x == a then length xs + 1 else rank a xs

length-remove_le : (a : ℕ) (xs : List ℕ) → length (remove a xs) ≤ length xs
length-remove_le a [] = omega arith
length-remove_le a (x ∷ xs) = ground (arith, length-remove_le a xs)

rank-remove :
    (next q : ℕ) (xs : List ℕ)
    → IsDistinct xs
    → has q (remove next xs) ≡ true
    → rank q (remove next xs) ≤ rank q xs
rank-remove next q [] d i = absurd (ground arith)
rank-remove next q (x ∷ xs) (out, d) i = elim (Bool-cases (x == next)) [
  | inl hit ↦
      let rest : remove next (x ∷ xs) ≡ xs = ground arith in
      let iq = subst (λ ys. has q ys ≡ true) rest i in
      let ne : (x == q) ≡ false = ground arith in rw (rest, ne) (omega arith)
  | inr miss ↦
      let rest : remove next (x ∷ xs) ≡ x ∷ remove next xs = ground arith in
      let iq = subst (λ ys. has q ys ≡ true) rest i in
      let le = length-remove_le next xs in
      elim (Bool-cases (x == q)) [
        | inl here ↦ rw (rest, here) (omega arith)
        | inr other ↦
            let jq : has q (remove next xs) ≡ true = ground arith in
            rw (rest, other) (rank-remove next q xs d jq)
      ]
]

-- Nothing in the image reads as the header of a free block but the free blocks: no payload forges one.
abbrev pub Honest : Heap → List ℕ → Type 0
Honest h fl = (p : ℕ) → is_free_header h p ≡ true → has p fl ≡ true

-- What a run of coalescing may change: free blocks go, and what is not free stays.
pub record Coalesces (h h' : Heap) (fl fl' al : List ℕ) (a : ℕ) : Type 0 where
  pub well_formed : IsWellFormed (arena h') fl' al 0
  pub kept : has a fl' ≡ true
  pub fewer : (q : ℕ) → has q fl' ≡ true → has q fl ≡ true
  pub untouched : (q : ℕ) → has q al ≡ true → SameHeader (h.blocks q) (h'.blocks q)
  pub larger : (h.blocks a).size ≤ (h'.blocks a).size
  pub image : SameImage h h'
  pub honest : Honest h fl → Honest h' fl'
  pub shorter : length fl' ≤ length fl
  pub sooner : (q : ℕ) → has q fl' ≡ true → rank q fl' ≤ rank q fl

module _ (h : Heap) {fl al : List ℕ} (wf : IsWellFormed (arena h) fl al 0) where
  open wf use {chain, block, fits, small}

  swallow-run :
      (a next : ℕ)
      → has next fl ≡ true
      → (g : ℕ → Block) → isolate next h ≡ ok tt (isolated h next g)
      → (x : ℕ → Foot) × (swallow a next (h.blocks next) h
          ≡ ok true (record (merged h a next g) { feet = x }))
  unfolding swallow set_free_size
  swallow-run a next i g run =
      let (ca, cb, cz, cd) = counts h wf next i in
      let (x, fe) = stamp_foot-feet a (merged h a next g) in (x, rw run (ground (arith, fe)))

  -- Two free blocks that touch end inside the image.
  two-fit :
      (a next : ℕ)
      → has a fl ≡ true
      → has next fl ≡ true
      → next ≡ a + (h.blocks a).size
      → (a ≢ next) × ((h.blocks a).size + (h.blocks next).size < addr_limit (h.blocks a).addr)
  two-fit a next ia i e =
      let b = block a (ground arith) in
      let c = block next (ground arith) in (omega arith, rw b.width (omega arith))

  moved-inside : (a : ℕ) → has a fl ≡ true → (moved h.root a (h.blocks a)).alloc < h.size_alloc
  moved-inside a i =
      let (p, n, two) = neighbours h wf a i in
      let b = block a (ground arith) in let first = wf.first in ground arith

  swallow-Merges :
      (a next : ℕ)
      → has a fl ≡ true
      → has next fl ≡ true
      → next ≡ a + (h.blocks a).size
      → (g : ℕ → Block) → ((q : ℕ) → g q ≡ unlinked h.blocks next q)
      → Chain g 0 (isolated h next g).root.free (remove next fl) (isolated h next g).root.free_last
      → Merges (arena h) (arena (merged h a next g)) fl a next
  swallow-Merges a next ia i e g at ch =
      let (ne, fit) = two-fit a next ia i e in
      let same = swallow_blocks_lem h.blocks g a next ne at fit in
      record {
        grown = λ q.
            let (s, w, t, al, li) = same q in
            record { size = s; addr = w; type = t; alloc = al; linked = li };
        addr_type = refl;
        size_alloc = refl;
        root_width = refl;
        chain =
            Chain-frame g (swallow_blocks g a next (h.blocks next)) 0 _ _ (remove next fl) ch
              (swallow_blocks-links g a next (h.blocks next) (remove next fl));
        first = moved-inside next i;
        free_size = refl;
        alloc_size = refl;
        free_items = refl;
        alloc_items = refl;
      }

  Merges-untouched :
      (a next : ℕ)
      → has a fl ≡ true
      → has next fl ≡ true
      → (g : ℕ → Block) → Merges (arena h) (arena (merged h a next g)) fl a next
      → (q : ℕ) → has q al ≡ true
      → SameHeader (h.blocks q) (swallow_blocks g a next (h.blocks next) q)
  Merges-untouched a next ia i g mg q iq =
      let s = mg.grown q in
      let da = wf.disjoint a ia in
      let dn = wf.disjoint next i in
      let na : (q == a) ≡ false = ground arith in
      let nn : (q == next) ≡ false = ground arith in
      record {
        addr = s.addr ∙ rw nn refl;
        type = s.type ∙ rw nn refl;
        alloc = s.alloc ∙ rw nn refl;
        linked = s.linked ∙ rw nn refl;
        size = s.size ∙ rw na refl;
      }

  Merges-Honest :
      (a next : ℕ)
      → has a fl ≡ true
      → has next fl ≡ true
      → (g : ℕ → Block) (x : ℕ → Foot) → Merges (arena h) (arena (merged h a next g)) fl a next
      → Honest h fl
      → Honest (record (merged h a next g) { feet = x }) (remove next fl)
  Merges-Honest a next ia i g x mg hon p fp =
      let df = Chain-IsDistinct h.blocks 0 h.root.free h.root.free_last fl chain in
      let s = mg.grown p in
      let sa = s.alloc in
      let sw = s.addr in
      let st = s.type in
      let sl = s.linked in let hr = has-remove next p fl df in let hp = hon p in ground arith

  swallow-ok :
      (a next : ℕ)
      → has a fl ≡ true
      → has next fl ≡ true
      → next ≡ a + (h.blocks a).size
      → (h' : Heap) × (swallow a next (h.blocks next) h ≡ ok true h')
        × Coalesces h h' fl (remove next fl) al a
  swallow-ok a next ia i e =
      let (g, run, at, ch) = isolate-ok h wf next i in
      let (x, swallow_run) = swallow-run a next i g run in
      let (ne, fit) = two-fit a next ia i e in
      let df = Chain-IsDistinct h.blocks 0 h.root.free h.root.free_last fl chain in
      let mg = swallow-Merges a next ia i e g at ch in
      let ha = has-remove next a fl df in
      (
        record (merged h a next g) { feet = x },
        swallow_run,
        record {
          well_formed =
              Merges-IsWellFormed (arena h) (arena (merged h a next g)) wf a next ia i e mg;
          kept = ground arith;
          fewer = λ q iq. let hq = has-remove next q fl df in ground arith;
          untouched = λ q iq. Merges-untouched a next ia i g mg q iq;
          larger = let s = mg.grown a in ground arith;
          honest = Merges-Honest a next ia i g x mg;
          shorter = length-remove_le next fl;
          sooner = λ q iq. rank-remove next q fl df iq;
          image = record {
            addr_type = refl;
            size_alloc = refl;
            size_used = refl;
            size_max = refl;
            vblock_min = refl;
            alloc_size = refl;
            alloc_items = refl;
          };
        },
      )
