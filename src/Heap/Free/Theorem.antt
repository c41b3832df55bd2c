-- ===== src/Heap/Free/Theorem.antt =====
-- What `P2PmsgHeap_FreeIOMAGE` promises on a well-formed heap.
use msgcore.Prelude.{
  ℕ, ◌≡◌, ◌≢◌, refl, ◌∙◌, ◌⊎◌, inl, inr, Bool, true, false, List, ◌∷◌, has, arith, ◌==◌,
}
use msgcore.Heap.{Block, Heap, ok, sizenn, block2phys}
use msgcore.Heap.Chain.{IsDistinct, remove, has-remove}
use msgcore.Heap.WellFormed.{IsWellFormed, arena}
use msgcore.Heap.FreeList.{is_free_header, prev_free, collate}
use msgcore.Heap.Collate.{Honest, SameHeader}
use msgcore.Heap.Collate.Loop.{collate-ok}
use msgcore.Heap.Validate.{valid_alloc, block_fits}
use msgcore.Heap.Free.{push_free, count_free, collate_around, free_iomage}
use msgcore.Heap.Push.Run.{linked_in}
use msgcore.Heap.Free.Correct.{pushed, pushes, pushed-IsWellFormed, pushed-Honest, counted}

-- The block that a boundary tag leads to reads as free.
prev_free-is_free_header :
    (h : Heap) (a : ℕ) → (prev_free h a ≡ 0) ⊎ (is_free_header h (prev_free h a) ≡ true)
unfolding prev_free
prev_free-is_free_header h a = ground arith

-- What coalescing in both directions leaves: the block itself may have been swallowed.
pub record Reclaims (h h' : Heap) (fl fl' al : List ℕ) : Type 0 where
  pub well_formed : IsWellFormed (arena h') fl' al 0
  pub honest : Honest h' fl'
  pub fewer : (q : ℕ) → has q fl' ≡ true → has q fl ≡ true
  pub untouched : (q : ℕ) → has q al ≡ true → SameHeader (h.blocks q) (h'.blocks q)
  pub size_used : h'.size_used ≡ h.size_used
  pub size_alloc : h'.size_alloc ≡ h.size_alloc
  pub addr_type : h'.addr_type ≡ h.addr_type
  pub size_max : h'.size_max ≡ h.size_max
  pub vblock_min : h'.vblock_min ≡ h.vblock_min

pub SameHeader-trans : {b c d : Block} → SameHeader b c → SameHeader c d → SameHeader b d
SameHeader-trans s t = record {
  addr = t.addr ∙ s.addr;
  type = t.type ∙ s.type;
  alloc = t.alloc ∙ s.alloc;
  linked = t.linked ∙ s.linked;
  size = t.size ∙ s.size;
}

around-alone :
    (a m : ℕ) (h h₁ : Heap)
    → collate a h ≡ ok m h₁
    → prev_free h₁ a ≡ 0
    → collate_around a h ≡ ok tt h₁
unfolding collate_around
around-alone a m h h₁ run none_before = rw (run, none_before) refl

around-both :
    (a m k : ℕ) (h h₁ h₂ : Heap)
    → collate a h ≡ ok m h₁
    → prev_free h₁ a ≢ 0
    → collate (prev_free h₁ a) h₁ ≡ ok k h₂
    → collate_around a h ≡ ok tt h₂
unfolding collate_around
around-both a m k h h₁ h₂ run before again =
    let nz : (prev_free h₁ a == 0) ≡ false = ground arith in rw (run, nz, again) refl

collate_around-ok :
    (h : Heap) (fl al : List ℕ)
    → IsWellFormed (arena h) fl al 0
    → Honest h fl
    → (a : ℕ) → has a fl ≡ true
    → (h' : Heap) × (fl' : List ℕ) × (collate_around a h ≡ ok tt h') × Reclaims h h' fl fl' al
collate_around-ok h fl al wf hon a i =
    let (h₁, fl₁, run, co, s) = collate-ok h fl al wf a i in
    let hon₁ = co.honest hon in
    let im = co.image in
    elim (prev_free-is_free_header h₁ a) [
      | inl z ↦ (
        h₁,
        fl₁,
        around-alone a _ h h₁ run z,
        record {
          well_formed = co.well_formed;
          honest = hon₁;
          fewer = co.fewer;
          untouched = co.untouched;
          size_used = im.size_used;
          size_alloc = im.size_alloc;
          addr_type = im.addr_type;
          size_max = im.size_max;
          vblock_min = im.vblock_min;
        },
      )
      | inr header ↦
          let p = prev_free h₁ a in
          let ip = hon₁ p header in
          let (h₂, fl₂, again, co₂, s₂) = collate-ok h₁ fl₁ al co.well_formed p ip in
          let im₂ = co₂.image in
          let wf₁ = co.well_formed in
          let b = wf₁.block p (ground arith) in
          (
            h₂,
            fl₂,
            around-both a _ _ h h₁ h₂ run (ground arith) again,
            record {
              well_formed = co₂.well_formed;
              honest = co₂.honest hon₁;
              fewer = λ q iq. co.fewer q (co₂.fewer q iq);
              untouched = λ q iq. SameHeader-trans (co.untouched q iq) (co₂.untouched q iq);
              size_used = im₂.size_used ∙ im.size_used;
              size_alloc = im₂.size_alloc ∙ im.size_alloc;
              addr_type = im₂.addr_type ∙ im.addr_type;
              size_max = im₂.size_max ∙ im.size_max;
              vblock_min = im₂.vblock_min ∙ im.vblock_min;
            },
          )
    ]

free_iomage-run :
    (gate : Bool) (a : ℕ) (h h₁ h₂ h₃ : Heap)
    → valid_alloc gate true a h ≡ ok true h
    → block2phys a h ≡ ok tt h
    → push_free a h ≡ ok tt h₁
    → count_free a (sizenn (h.blocks a)) h₁ ≡ ok tt h₂
    → collate_around a h₂ ≡ ok tt h₃
    → free_iomage gate a h ≡ ok tt (record h₃ { dirty = true })
unfolding free_iomage
free_iomage-run gate a h h₁ h₂ h₃ r₁ r₂ r₃ r₄ r₅ = rw (r₁, r₂, r₃, r₄, r₅) refl

-- What freeing `a` ends in.
abbrev pub Frees : Bool → Heap → List ℕ → List ℕ → ℕ → Type 0
Frees gate h fl al a =
    (h' : Heap) × (fl' : List ℕ) × (free_iomage gate a h ≡ ok tt h')
    × Reclaims h h' (a ∷ fl) fl' (remove a al)

pushed-SameHeader :
    (h : Heap) (g : ℕ → Block) (a : ℕ) (al : List ℕ)
    → IsDistinct al
    → ((q : ℕ) → g q ≡ linked_in h.blocks a h.root.free q)
    → (q : ℕ) → has q (remove a al) ≡ true
    → SameHeader (h.blocks q) ((pushed h a g).blocks q)
pushed-SameHeader h g a al d at q iq =
    let e = at q in
    let r = has-remove a q al d in
    let ne : (q == a) ≡ false = ground arith in
    record {
      addr = ground arith;
      type = ground arith;
      alloc = ground arith;
      linked = ground arith;
      size = ground arith;
    }

valid-run :
    (gate : Bool) (h : Heap) (fl al : List ℕ)
    → IsWellFormed (arena h) fl al 0
    → (a : ℕ) → has a al ≡ true
    → (h.blocks a).linked ≡ true
    → valid_alloc gate true a h ≡ ok true h
unfolding valid_alloc block_fits
valid-run gate h fl al wf a i linked =
    let b = wf.block a (ground arith) in
    let wd = b.width in
    let ac = b.alloc in
    let busy = wf.busy a i (ground arith) in
    let fits : block_fits h a ≡ true = ground arith in ground arith

pub free_iomage-ok :
    (gate : Bool) (h : Heap) (fl al : List ℕ)
    → IsWellFormed (arena h) fl al 0
    → Honest h fl
    → (a : ℕ) → has a al ≡ true
    → (h.blocks a).linked ≡ true
    → Frees gate h fl al a
unfolding block2phys
free_iomage-ok gate h fl al wf hon a i linked =
    let b = wf.block a (ground arith) in
    let (g, push, at) = pushes h wf a i in
    let w₁ = pushed-IsWellFormed h wf a i linked g at in
    let hon₁ = pushed-Honest h wf a i linked g at hon in
    let (h', fl', run, re) =
      collate_around-ok (pushed h a g) (a ∷ fl) (remove a al) w₁ hon₁ a (ground arith) in
    (
      record h' { dirty = true },
      fl',
      free_iomage-run gate a h (record h { blocks = g }) (pushed h a g) h'
          (valid-run gate h fl al wf a i linked) (ground arith) push (counted h wf a i linked g at)
          run,
      record {
        well_formed = re.well_formed;
        honest = re.honest;
        fewer = re.fewer;
        untouched = λ q iq.
            SameHeader-trans (pushed-SameHeader h g a al wf.distinct at q iq) (re.untouched q iq);
        size_used = re.size_used;
        size_alloc = re.size_alloc;
        addr_type = re.addr_type;
        size_max = re.size_max;
        vblock_min = re.vblock_min;
      },
    )
