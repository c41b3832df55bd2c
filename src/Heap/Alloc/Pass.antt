-- ===== src/Heap/Alloc/Pass.antt =====
-- `P2PmsgHeap_AllocIOMAGE` on a well-formed heap.
use msgcore.Prelude.{
  ℕ, zero, suc, ◌+◌, ◌-◌, ◌*◌, ◌/◌, ◌≤◌, ◌<◌, ◌≡◌, ◌≢◌, refl, ◌∙◌, subst, ◌⊎◌, inl, inr, Bool, true,
  false, ◌&&◌, List, [], ◌∷◌, has, length, arith, leb, ◌==◌, if◌then◌else◌, Bool-cases,
}
use msgcore.Width.{
  AddrType, addr08, addr16, addr32, addr64, vbheap_min, sizeof_hdr, sizeof_root, addr_limit,
}
use msgcore.Heap.{
  Block, Heap, Error, Outcome, ok, throw, exceeds_max, resizes_exhausted, sizenn, block2phys,
  max_blocks,
}
use msgcore.Heap.Chain.{Chain, total}
use msgcore.Heap.WellFormed.{IsWellFormed, arena}
use msgcore.Heap.FreeList.{is_free_header}
use msgcore.Heap.Collate.{Honest, rank}
use msgcore.Heap.Grow.{resize}
use msgcore.Heap.Extend.Theorem.{resize-ok}
use msgcore.Heap.Validate.FreeWalk.{least_total}
use msgcore.Heap.Sound.{Sound, Since, Since-trans}
use msgcore.Heap.Alloc.{Fit, fit_walk, take_fit, alloc_pass, alloc_iomage, max_alloc_resizes}
use msgcore.Heap.Alloc.Walk.{Cursor, Answer, fit_walk-ok}
use msgcore.Heap.Alloc.Take.{take_fit-ok}
use msgcore.Heap.Alloc.Ready.{
  Ready, Walks-Ready, Grows-Ready, Ready-Sound, Ready-recounted, recounted, Walks-Since,
  Grows-Since, Hands-Since, Hands-Sound,
}

abbrev no_fit : Fit
no_fit = record { best = 0; size = 0; fits = 0 }

-- How an allocation of `n` bytes ends: in a block of `n` or more that joins the allocated ones, or
-- in one of two throws.
abbrev pub Ends : (Heap → Outcome (ℕ × ℕ)) → Heap → List ℕ → ℕ → Type 0
Ends run h al n =
    ((r : ℕ) × (m : ℕ) × (h' : Heap) × (fl' : List ℕ) × (run h ≡ ok (r, m) h')
      × (n ≤ m)
      × (has r al ≡ false)
      × Sound h' fl' (r ∷ al) r
      × ((h'.blocks r).size ≡ m)
      × Since h h' al)
    ⊎ ((e : Error) × (h' : Heap) × (fl' : List ℕ) × (run h ≡ throw e h')
        × ((e ≡ exceeds_max) ⊎ (e ≡ resizes_exhausted))
        × Sound h' fl' al 0
        × Since h h' al)

-- What a pass finds.
pass-found :
    (passes : ℕ) (gate : Bool) (max n : ℕ) (first : Bool) (resizes r : ℕ) (h h₁ : Heap)
    → fit_walk max first n no_fit h.root.free h ≡ ok r h₁
    → (r == 0) ≡ false
    → block2phys r h₁ ≡ ok tt h₁
    → (is_free_header h₁ r && leb n (sizenn (h₁.blocks r))) ≡ true
    → alloc_pass (suc passes) gate max n first resizes h ≡ take_fit r n h₁
unfolding alloc_pass
pass-found passes gate max n first resizes r h h₁ r₁ nz r₂ good = rw (r₁, nz, r₂, good) refl

pass-again :
    (passes : ℕ) (gate : Bool) (max n : ℕ) (first : Bool) (resizes r : ℕ) (h h₁ : Heap)
    → first ≡ false
    → fit_walk max first n no_fit h.root.free h ≡ ok r h₁
    → (r == 0) ≡ false
    → block2phys r h₁ ≡ ok tt h₁
    → (is_free_header h₁ r && leb n (sizenn (h₁.blocks r))) ≡ false
    → alloc_pass (suc passes) gate max n first resizes h
      ≡ alloc_pass passes gate max n true resizes h₁
unfolding alloc_pass
pass-again passes gate max n first resizes r h h₁ e r₁ nz r₂ bad = rw (r₁, nz, r₂, bad, e) refl

pass-tired :
    (passes : ℕ) (gate : Bool) (max n : ℕ) (first : Bool) (resizes : ℕ) (h h₁ : Heap)
    → fit_walk max first n no_fit h.root.free h ≡ ok 0 h₁
    → leb max_alloc_resizes resizes ≡ true
    → alloc_pass (suc passes) gate max n first resizes h ≡ throw resizes_exhausted h₁
unfolding alloc_pass
pass-tired passes gate max n first resizes h h₁ r₁ tired = rw (r₁, tired) refl

pass-full :
    (passes : ℕ) (gate : Bool) (max n : ℕ) (first : Bool) (resizes : ℕ) (h h₁ h₂ : Heap)
    → fit_walk max first n no_fit h.root.free h ≡ ok 0 h₁
    → leb max_alloc_resizes resizes ≡ false
    → resize gate n true h₁ ≡ throw exceeds_max h₂
    → alloc_pass (suc passes) gate max n first resizes h ≡ throw exceeds_max h₂
unfolding alloc_pass
pass-full passes gate max n first resizes h h₁ h₂ r₁ more r₂ = rw (r₁, more, r₂) refl

pass-grown :
    (passes : ℕ) (gate : Bool) (max n : ℕ) (first : Bool) (resizes x : ℕ) (h h₁ h₂ : Heap)
    → fit_walk max first n no_fit h.root.free h ≡ ok 0 h₁
    → leb max_alloc_resizes resizes ≡ false
    → resize gate n true h₁ ≡ ok x h₂
    → (x == 0) ≡ false
    → alloc_pass (suc passes) gate max n first resizes h
      ≡ alloc_pass passes gate max n first (resizes + 1) h₂
unfolding alloc_pass
pass-grown passes gate max n first resizes x h h₁ h₂ r₁ more r₂ nz = rw (r₁, more, r₂, nz) refl

-- An end of a later part is one of the whole.
Ends-after :
    (run run' : Heap → Outcome (ℕ × ℕ)) (h h' : Heap) {al : List ℕ} {n : ℕ}
    → run h ≡ run' h'
    → Since h h' al
    → Ends run' h' al n
    → Ends run h al n
Ends-after run run' h h' e same (inl (r, m, h₂, fl₂, ends, nm, out, so, sz, un)) =
    inl (r, m, h₂, fl₂, e ∙ ends, nm, out, so, sz, Since-trans same un)
Ends-after run run' h h' e same (inr (er, h₂, fl₂, ends, which, so, un)) =
    inr (er, h₂, fl₂, e ∙ ends, which, so, Since-trans same un)

-- The rank of a list's first block is its length.
rank-head :
    (f : ℕ → Block) (c last : ℕ) (xs : List ℕ)
    → Chain f 0 c xs last
    → (c ≡ 0) ⊎ ((c ≢ 0) × (has c xs ≡ true) × (rank c xs ≡ length xs))
rank-head f c last [] h = inl h.0
rank-head f c last (x ∷ xs) (e, ne, out, back, rest) =
    inr (ground arith, ground arith, ground arith)

pass-empty-ok :
    (passes : ℕ) (gate : Bool) (max n : ℕ) (first : Bool) (resizes : ℕ) (h h₁ : Heap)
    (fl₁ al : List ℕ)
    → Ready h₁ fl₁ al max n resizes
    → resizes ≤ 2
    → fit_walk max first n no_fit h.root.free h ≡ ok 0 h₁
    → Since h h₁ al
    → ((h₂ : Heap) (fl₂ : List ℕ)
        → Ready h₂ fl₂ al max n (resizes + 1)
        → resizes < 2
        → Ends (alloc_pass passes gate max n first (resizes + 1)) h₂ al n)
    → Ends (alloc_pass (suc passes) gate max n first resizes) h al n
pass-empty-ok passes gate max n first resizes h h₁ fl₁ al rd le run same ih =
    let wf = rd.well_formed in
    let pos : 0 < vbheap_min h₁.addr_type = ground arith in
    elim (Bool-cases (leb max_alloc_resizes resizes)) [
      | inl tired ↦ inr (
        resizes_exhausted,
        h₁,
        fl₁,
        pass-tired passes gate max n first resizes h h₁ run tired,
        inr refl,
        Ready-Sound rd,
        same,
      )
      | inr more ↦
          let (refused, grows) =
            resize-ok gate true n h₁ fl₁ al wf rd.small rd.fits rd.under rd.least in
          elim (Bool-cases (leb n (h₁.size_max - h₁.size_alloc))) [
            | inl room ↦
                let (x, h₂, grown, nx, under, g) = grows (ground arith) in
                let least = rd.least in
                Ends-after (alloc_pass (suc passes) gate max n first resizes)
                  (alloc_pass passes gate max n first (resizes + 1)) h h₂
                  (pass-grown passes gate max n first resizes x h h₁ h₂ run more grown
                    (ground arith))
                  (Since-trans same (Grows-Since g))
                  (ih h₂ _ (Grows-Ready rd g under) (ground arith))
            | inr full ↦ inr (
              exceeds_max,
              record h₁ { free_entries = length fl₁ },
              fl₁,
              pass-full passes gate max n first resizes h h₁ _ run more (refused (ground arith)),
              inl refl,
              Ready-Sound (Ready-recounted rd (length fl₁)),
              Since-trans same (recounted h₁ (length fl₁)),
            )
          ]
    ]

-- The answer of a first-fit walk is good.
stale-first :
    (h : Heap) (fl al : List ℕ) (first : Bool) (n r : ℕ)
    → IsWellFormed (arena h) fl al 0
    → Answer first n h fl r
    → (r == 0) ≡ false
    → (is_free_header h r && leb n (sizenn (h.blocks r))) ≡ false
    → first ≡ false
stale-first h fl al first n r wf (inl z) nz bad = absurd (ground arith)
stale-first h fl al first n r wf (inr (ins, pos, at)) nz bad = elim (Bool-cases first) [
  | inl yes_first ↦
      let (i, le) = at yes_first in
      let b = wf.block r (ground arith) in
      let (ty, li) = wf.listed r i in
      let ex = b.exact in let wd = b.width in let ac = b.alloc in absurd (ground arith)
  | inr later ↦ later
]

pass-found-ok :
    (passes : ℕ) (gate : Bool) (max n : ℕ) (first : Bool) (resizes r : ℕ) (h h₁ : Heap)
    (fl₁ al : List ℕ)
    → Ready h₁ fl₁ al max n resizes
    → fit_walk max first n no_fit h.root.free h ≡ ok r h₁
    → (r == 0) ≡ false
    → block2phys r h₁ ≡ ok tt h₁
    → (is_free_header h₁ r && leb n (sizenn (h₁.blocks r))) ≡ true
    → Since h h₁ al
    → Ends (alloc_pass (suc passes) gate max n first resizes) h al n
pass-found-ok passes gate max n first resizes r h h₁ fl₁ al rd run nz r₂ good same =
    let wf = rd.well_formed in
    let i : has r fl₁ ≡ true = rd.honest r (ground arith) in
    let b = wf.block r (ground arith) in
    let ex = b.exact in
    let dj = wf.disjoint r i in
    let (m, h₂, fl₂, take, nm, mn, hd) = take_fit-ok h₁ fl₁ al wf r n i rd.least (ground arith) in
    inl (
      r,
      m,
      h₂,
      fl₂,
      pass-found passes gate max n first resizes r h h₁ run nz r₂ good ∙ take,
      nm,
      dj,
      Hands-Sound rd hd,
      hd.size,
      Since-trans same (Hands-Since hd),
    )

alloc_pass-ok :
    (passes : ℕ) (gate : Bool) (max n : ℕ) (first : Bool) (resizes : ℕ) (h : Heap) (fl al : List ℕ)
    → Ready h fl al max n resizes
    → resizes ≤ 2
    → (2 - resizes) + (if first then 0 else 1) < passes
    → Ends (alloc_pass passes gate max n first resizes) h al n
unfolding block2phys
alloc_pass-ok zero gate max n first resizes h fl al rd le lt = absurd (omega arith)
alloc_pass-ok (suc passes) gate max n first resizes h fl al rd le lt =
    let wf = rd.well_formed in
    let few = rd.few in
    let rh = rank-head h.blocks h.root.free h.root.free_last fl wf.chain in
    let cursor : Cursor max h.root.free fl = ground arith in
    let (h₁, fl₁, r, run, w, an) =
      fit_walk-ok max first n no_fit h.root.free h fl al wf rd.honest cursor (inl refl) in
    let rd₁ = Walks-Ready rd w in
    let wf₁ = w.well_formed in
    elim (Bool-cases (r == 0)) [
      | inl z ↦
          let e : r ≡ 0 = ground arith in
          let run₀ = subst (λ r. fit_walk max first n no_fit h.root.free h ≡ ok r h₁) e run in
          pass-empty-ok passes gate max n first resizes h h₁ fl₁ al rd₁ le run₀ (Walks-Since w)
            (λ h₂ fl₂ rd₂ more.
              alloc_pass-ok passes gate max n first (resizes + 1) h₂ fl₂ al rd₂ (omega arith)
                (ground arith))
      | inr nz ↦
          let ins : (r < h₁.size_alloc) × (0 < r) = ground arith in
          let r₂ : block2phys r h₁ ≡ ok tt h₁ = ground arith in
          elim (Bool-cases (is_free_header h₁ r && leb n (sizenn (h₁.blocks r)))) [
            | inl good ↦
                pass-found-ok passes gate max n first resizes r h h₁ fl₁ al rd₁ run nz r₂ good
                  (Walks-Since w)
            | inr bad ↦
                let walks : first ≡ false = stale-first h₁ fl₁ al first n r wf₁ an nz bad in
                Ends-after (alloc_pass (suc passes) gate max n first resizes)
                  (alloc_pass passes gate max n true resizes) h h₁
                  (pass-again passes gate max n first resizes r h h₁ walks run nz r₂ bad)
                  (Walks-Since w)
                  (alloc_pass-ok passes gate max n true resizes h₁ fl₁ al rd₁ le (ground arith))
          ]
    ]

-- The list of a well-formed heap leaves room for two blocks under the bound of the walks.
room_for_two :
    (w : AddrType) (n t s : ℕ)
    → n * vbheap_min w ≤ t
    → 8 + sizeof_root w + t ≤ s
    → n + 2 ≤ s / sizeof_hdr w + 1
room_for_two addr08 n t s le le' = ground arith
room_for_two addr16 n t s le le' = ground arith
room_for_two addr32 n t s le le' = ground arith
room_for_two addr64 n t s le le' = ground arith

pub alloc_iomage-ok :
    (gate : Bool) (n : ℕ) (h : Heap) (fl al : List ℕ)
    → IsWellFormed (arena h) fl al 0
    → Honest h fl
    → h.size_max < 0x8000_0000
    → h.size_max < addr_limit h.addr_type
    → h.size_alloc ≤ h.size_max
    → vbheap_min h.addr_type ≤ n
    → Ends (alloc_iomage gate n) h al n
unfolding alloc_iomage max_blocks
alloc_iomage-ok gate n h fl al wf hon small fits under least =
    let lt =
      least_total h.blocks (vbheap_min h.addr_type) fl
        (λ q i. let b = wf.block q (ground arith) in omega arith) in
    let co = wf.conserved in
    let few =
      room_for_two h.addr_type (length fl) (total h.blocks fl) h.size_alloc lt (omega arith) in
    alloc_pass-ok 4 gate (h.size_alloc / sizeof_hdr h.addr_type + 1) n false 0 h fl al
      (record {
        well_formed = wf;
        honest = hon;
        small = small;
        fits = fits;
        under = under;
        least = least;
        few = omega arith;
      })
      (omega arith) (omega arith)
