-- ===== src/Heap/Collate/Loop.antt =====
-- `P2PmsgHeap_CollateIOMAGE` on a well-formed heap: it ends, and the heap stays well-formed.
use msgcore.Prelude.{
  subst, sym, ℕ, zero, suc, ◌+◌, ◌<◌, ◌≡◌, refl, ◌⊎◌, inl, inr, ◌∙◌, true, false, List, has, length,
  arith, Bool-cases, leb,
}
use msgcore.Heap.{Heap, Foot, M, ok, is_free, addr2phys}
use msgcore.Heap.Chain.Totals.{length-remove}
use msgcore.Heap.WellFormed.{IsWellFormed, arena, starts}
use msgcore.Heap.FreeList.{swallow, collate_step, collate_loop, collate}
use msgcore.Heap.Collate.{Coalesces, swallow-ok, stamp_foot-feet}
use msgcore.Heap.Isolate.{counts}

-- Nothing but boundary tags changed.
abbrev pub retagged : Heap → (ℕ → Foot) → Heap
retagged h x = record h { feet = x }

-- Behind the block is the end of the image or an allocated block.
abbrev pub Settled : Heap → List ℕ → ℕ → Type 0
Settled h al a = (a + (h.blocks a).size ≡ h.size_alloc) ⊎ (has (a + (h.blocks a).size) al ≡ true)

module _ (h : Heap) {fl al : List ℕ} (wf : IsWellFormed (arena h) fl al 0) where
  step-cases :
      (a : ℕ)
      → has a fl ≡ true
      → let next = a + (h.blocks a).size in
        ((x : ℕ → Foot) × (collate_step h.addr_type a h ≡ ok false (retagged h x)) × Settled h al a)
        ⊎ ((has next fl ≡ true) × (collate_step h.addr_type a h ≡ swallow a next (h.blocks next) h))
  unfolding collate_step addr2phys
  step-cases a i =
      let b = wf.block a (ground arith) in
      let c = wf.block (a + (h.blocks a).size) in
      let (x, fe) = stamp_foot-feet a h in
      let ex = b.exact in
      rw ex (elim (Bool-cases (leb h.size_alloc (a + (h.blocks a).size))) [
        | inl end ↦ inl (h.feet, ground arith, ground arith)
        | inr more ↦
            let s : starts fl al (a + (h.blocks a).size) ≡ true = ground arith in
            let n = c s in
            let li = wf.listed (a + (h.blocks a).size) in
            elim (Bool-cases (has (a + (h.blocks a).size) fl)) [
              | inl free ↦ let (ty, ln) = li free in inr (free, ground arith)
              | inr used ↦
                  let busy : is_free (h.blocks (a + (h.blocks a).size)) ≡ false =
                    wf.busy (a + (h.blocks a).size) (ground arith) (omega arith) in
                  inl (x, ground (arith, fe), inr (ground arith))
            ]
      ])

  same-Coalesces :
      (a : ℕ) → has a fl ≡ true → (x : ℕ → Foot) → Coalesces h (retagged h x) fl fl al a
  same-Coalesces a i x = record {
    well_formed = wf;
    kept = i;
    fewer = λ q iq. iq;
    untouched =
        λ q iq. record { addr = refl; type = refl; alloc = refl; linked = refl; size = refl };
    larger = omega arith;
    honest = λ hon. hon;
    shorter = omega arith;
    sooner = λ q iq. omega arith;
    image = record {
      addr_type = refl;
      size_alloc = refl;
      size_used = refl;
      size_max = refl;
      vblock_min = refl;
      alloc_size = refl;
      alloc_items = refl;
    };
  }

-- One run of coalescing after another.
Coalesces-trans :
    {h h' h'' : Heap} {fl fl' fl'' al : List ℕ} {a : ℕ}
    → Coalesces h h' fl fl' al a
    → Coalesces h' h'' fl' fl'' al a
    → Coalesces h h'' fl fl'' al a
Coalesces-trans c d = record {
  well_formed = d.well_formed;
  kept = d.kept;
  fewer = λ q i. c.fewer q (d.fewer q i);
  untouched = λ q i.
      let s = c.untouched q i in
      let t = d.untouched q i in
      record {
        addr = t.addr ∙ s.addr;
        type = t.type ∙ s.type;
        alloc = t.alloc ∙ s.alloc;
        linked = t.linked ∙ s.linked;
        size = t.size ∙ s.size;
      };
  larger = let x = c.larger in let y = d.larger in omega arith;
  honest = λ hon. d.honest (c.honest hon);
  shorter = let x = d.shorter in let y = c.shorter in omega arith;
  sooner = λ q iq. let x = d.sooner q iq in let y = c.sooner q (d.fewer q iq) in omega arith;
  image =
      let s = c.image in
      let t = d.image in
      record {
        addr_type = t.addr_type ∙ s.addr_type;
        size_alloc = t.size_alloc ∙ s.size_alloc;
        size_used = t.size_used ∙ s.size_used;
        size_max = t.size_max ∙ s.size_max;
        vblock_min = t.vblock_min ∙ s.vblock_min;
        alloc_size = t.alloc_size ∙ s.alloc_size;
        alloc_items = t.alloc_items ∙ s.alloc_items;
      };
}

abbrev pub Collated : (ℕ → M ℕ) → Heap → List ℕ → List ℕ → ℕ → Type 0
Collated run h fl al a =
    (h' : Heap) × (fl' : List ℕ) × (run a h ≡ ok (h'.blocks a).size h')
    × Coalesces h h' fl fl' al a
    × Settled h' al a

collate_loop-ok :
    (fuel : ℕ) (h : Heap) (fl al : List ℕ)
    → IsWellFormed (arena h) fl al 0
    → length fl < fuel
    → (a : ℕ) → has a fl ≡ true
    → Collated (collate_loop fuel h.addr_type) h fl al a
unfolding collate_loop
collate_loop-ok zero h fl al wf enough a i = let no : ⊥ = omega arith in absurd no
collate_loop-ok (suc fuel) h fl al wf enough a i =
    let b = wf.block a (ground arith) in
    elim (step-cases h wf a i) [
      | inl (x, run, settled) ↦
          (retagged h x, fl, rw run (ground (arith, b.exact)), same-Coalesces h wf a i x, settled)
      | inr (free, run) ↦
          let (h₁, swallowed, co) = swallow-ok h wf a (a + (h.blocks a).size) i free refl in
          let fewer = length-remove (a + (h.blocks a).size) fl free in
          let (h₂, fl₂, rest, co₂, settled) =
            collate_loop-ok fuel h₁ _ al co.well_formed (omega arith) a co.kept in
          let w = co.image in
          (
            h₂,
            fl₂,
            rw (run, swallowed)
                (subst (λ w. collate_loop fuel w a h₁ ≡ ok (h₂.blocks a).size h₂) w.addr_type rest),
            Coalesces-trans co co₂,
            settled,
          )
    ]

-- A free block stands inside the image.
abbrev IsStart : Heap → ℕ → Type 0
IsStart h a = (0 < a) × (a < h.size_alloc) × ((h.blocks a).type ≡ 0)

collate-run :
    (h h' : Heap) (a n : ℕ) (b : IsStart h a)
    → collate_loop (h.size_alloc + 1) (h.blocks a).addr a (record h { dirty = true }) ≡ ok n h'
    → collate a h ≡ ok n h'
unfolding collate addr2phys
collate-run h h' a n (z, e, f) run = ground (arith, run)

-- The dirty flag is no part of what coalescing keeps.
undirtied :
    {h h' : Heap} {fl fl' al : List ℕ} {a : ℕ}
    → Coalesces (record h { dirty = true }) h' fl fl' al a
    → Coalesces h h' fl fl' al a
undirtied c =
    let s = c.image in
    record {
      well_formed = c.well_formed;
      kept = c.kept;
      fewer = c.fewer;
      untouched = c.untouched;
      larger = c.larger;
      honest = c.honest;
      shorter = c.shorter;
      sooner = c.sooner;
      image = record {
        addr_type = s.addr_type;
        size_alloc = s.size_alloc;
        size_used = s.size_used;
        size_max = s.size_max;
        vblock_min = s.vblock_min;
        alloc_size = s.alloc_size;
        alloc_items = s.alloc_items;
      };
    }

pub collate-ok :
    (h : Heap) (fl al : List ℕ)
    → IsWellFormed (arena h) fl al 0
    → (a : ℕ) → has a fl ≡ true
    → Collated collate h fl al a
collate-ok h fl al wf a i =
    let b = wf.block a (ground arith) in
    let (ty, li) = wf.listed a i in
    let (ca, cb, cz, cd) = counts h wf a i in
    let it = wf.free_items in
    let (h', fl', run, co, settled) =
      collate_loop-ok (h.size_alloc + 1) (record h { dirty = true }) fl al wf (omega arith) a i in
    let w = b.width in
    (
      h',
      fl',
      collate-run h h' a (h'.blocks a).size (omega arith, omega arith, ty)
          (subst
            (λ w.
              collate_loop (h.size_alloc + 1) w a (record h { dirty = true })
              ≡ ok (h'.blocks a).size h')
            (sym w) run),
      undirtied co,
      settled,
    )
