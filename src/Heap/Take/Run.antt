-- ===== src/Heap/Take/Run.antt =====
-- Handing out a whole free block of a well-formed heap.
use msgcore.Prelude.{ℕ, ◌+◌, ◌≤◌, ◌<◌, ◌≡◌, refl, subst, true, false, List, has, arith, some}
use msgcore.Width.{addr_limit}
use msgcore.Root.{Root, set_alloc_size, set_alloc_items}
use msgcore.Heap.{Block, Heap, ok, sizenn}
use msgcore.Heap.Chain.Totals.{length-le-total, total-remove}
use msgcore.Heap.WellFormed.{IsWellFormed, arena}
use msgcore.Heap.FreeList.{isolate, take_whole}
use msgcore.Heap.Isolate.{isolated, unlinked, isolate-ok, neighbours}
use msgcore.Heap.Take.{Takes}

-- The keys once `n` bytes have been counted as allocated.
abbrev pub allotted : Root → ℕ → Root
allotted r n = record r { alloc_size = r.alloc_size + n; alloc_items = r.alloc_items + 1 }

pub set_alloc_size-add :
    (r : Root) (n : ℕ)
    → r.alloc_size + n < addr_limit r.addr
    → set_alloc_size r n false ≡ some (record r { alloc_size = r.alloc_size + n })
unfolding set_alloc_size
set_alloc_size-add r n fit = ground arith

pub set_alloc_items-add :
    (r : Root)
    → r.alloc_items + 1 < addr_limit r.addr
    → r.alloc_items + 1 < 0x8000_0000
    → set_alloc_items r 1 false ≡ some (record r { alloc_items = r.alloc_items + 1 })
unfolding set_alloc_items
set_alloc_items-add r fit small = ground arith

take_whole-run :
    (a : ℕ) (b : Block) (h h₁ : Heap) (r₂ r₃ : Root)
    → isolate a h ≡ ok tt h₁
    → set_alloc_size h₁.root (sizenn b) false ≡ some r₂
    → set_alloc_items r₂ 1 false ≡ some r₃
    → take_whole a b h ≡ ok (sizenn b) (record h₁ { root = r₃ })
unfolding take_whole
take_whole-run a b h h₁ r₂ r₃ e₁ e₂ e₃ = rw e₁ (ground arith)

-- The heap after `take_whole`, its blocks given.
abbrev pub taken : Heap → ℕ → (ℕ → Block) → Heap
taken h a g = record (isolated h a g) {
  root = allotted (isolated h a g).root (sizenn (h.blocks a));
}

module _ (h : Heap) {fl al : List ℕ} (wf : IsWellFormed (arena h) fl al 0) where
  -- Room for the counters of the allocated blocks.
  pub alloc_counts :
      (a : ℕ)
      → has a fl ≡ true
      → (h.root.alloc_size + (h.blocks a).size < h.size_alloc)
        × (h.root.alloc_items ≤ h.root.alloc_size)
        × ((h.blocks a).size ≤ h.root.free_size)
        × (1 < (h.blocks a).size)
  alloc_counts a i =
      let b = wf.block a (ground arith) in
      let ex = b.exact in
      let le =
        length-le-total h.blocks al (λ q iq. let b = wf.block q (ground arith) in omega arith) in
      let rm = total-remove h.blocks a fl i in
      let sz = wf.alloc_size in
      let fs = wf.free_size in
      let it = wf.alloc_items in
      let co = wf.conserved in
      let ls = b.least in (omega arith, omega arith, omega arith, ground arith)

  pub take_whole-ok :
      (a : ℕ)
      → has a fl ≡ true
      → (g : ℕ → Block) × (take_whole a (h.blocks a) h ≡ ok (h.blocks a).size (taken h a g))
        × ((q : ℕ) → g q ≡ unlinked h.blocks a q)
        × Takes (arena h) (arena (taken h a g)) fl a
  take_whole-ok a i =
      let b = wf.block a (ground arith) in
      let ex = b.exact in
      let (ra, rb, rc, rd) = alloc_counts a i in
      let fits = wf.fits in
      let small = wf.small in
      let rw' = wf.root_width in
      let (g, run, at, ch) = isolate-ok h wf a i in
      let r₁ = (isolated h a g).root in
      let (p, n, two) = neighbours h wf a i in
      let first = wf.first in
      (
        g,
        subst (λ n. take_whole a (h.blocks a) h ≡ ok n (taken h a g)) ex
            (take_whole-run a (h.blocks a) h (isolated h a g) _ _ run
              (set_alloc_size-add r₁ (sizenn (h.blocks a)) (ground arith))
              (set_alloc_items-add (record r₁ { alloc_size = r₁.alloc_size + sizenn (h.blocks a) })
                (ground arith) (omega arith))),
        at,
        record {
          size = λ q. let e = at q in ground arith;
          addr = λ q. let e = at q in ground arith;
          alloc = λ q. let e = at q in ground arith;
          type = λ q ne. let e = at q in ground arith;
          linked = λ q ne. let e = at q in ground arith;
          addr_type = refl;
          size_alloc = refl;
          root_width = refl;
          chain = ch;
          first = ground arith;
          free_size = ground arith;
          alloc_size = ground arith;
          free_items = refl;
          alloc_items = refl;
        },
      )
