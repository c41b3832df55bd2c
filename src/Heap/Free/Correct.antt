-- ===== src/Heap/Free/Correct.antt =====
-- `P2PmsgHeap_FreeIOMAGE` on a well-formed heap.
use msgcore.Prelude.{
  ℕ, ◌+◌, ◌%◌, ◌^◌, ◌≤◌, ◌<◌, ◌≡◌, ◌≢◌, refl, subst, sym, inl, inr, true, false, List, ◌∷◌, has,
  arith, update, ◌==◌, Bool-cases,
}
use msgcore.Heap.{Block, Heap, ok, sizenn}
use msgcore.Heap.Chain.{remove, Chain-first}
use msgcore.Heap.Chain.Totals.{length-le-total, total-remove, length-remove}
use msgcore.Heap.WellFormed.{IsWellFormed, arena}
use msgcore.Heap.Collate.{Honest}
use msgcore.Heap.Free.{count_free}
use msgcore.Heap.Push.{Pushes, Pushes-IsWellFormed, Chain-push}
use msgcore.Heap.Push.Run.{
  linked_in, Pushed, push_free-empty, push_free-some, returned, count_free_lem,
}

-- The heap once the block is at the head of the free list.
abbrev pub pushed : Heap → ℕ → (ℕ → Block) → Heap
pushed h a g = record h {
  root = returned h.root a (h.blocks a).size;
  blocks = update g a (record (g a) { type = 0 });
  free_entries = (h.free_entries + 1) % 2 ^ 32;
}

module _ (h : Heap) {fl al : List ℕ} (wf : IsWellFormed (arena h) fl al 0) (a : ℕ)
    (i : has a al ≡ true) where
  not_free : has a fl ≡ false
  not_free = elim (Bool-cases (has a fl)) [
    | inl hit ↦ let d = wf.disjoint a hit in ground arith
    | inr miss ↦ miss
  ]

  pub pushes : Pushed h a
  pushes =
      let b = wf.block a (ground arith) in
      let wd = b.width in
      let fits = wf.fits in
      let nf = not_free in
      let first = Chain-first h.blocks 0 h.root.free h.root.free_last fl wf.chain in
      let c = wf.block h.root.free in
      elim first [
        | inl z ↦ push_free-empty a h (ground arith) wd z
        | inr hf ↦
            let d = c (ground arith) in
            let wc = d.width in
            push_free-some a h (ground arith) wd (ground arith) (ground arith) (ground arith)
              (ground arith) wc
      ]

  counts :
      ((h.blocks a).size ≤ h.root.alloc_size)
      × (h.root.alloc_size + h.root.free_size < h.size_alloc)
      × (0 < h.root.alloc_items)
      × (h.root.alloc_items ≤ h.root.alloc_size)
      × (h.root.free_items ≤ h.root.free_size)
      × (0 < (h.blocks a).size)
  counts =
      let b = wf.block a (ground arith) in
      let ex = b.exact in
      let la =
        length-le-total h.blocks al (λ q iq. let b = wf.block q (ground arith) in omega arith) in
      let lf =
        length-le-total h.blocks fl (λ q iq. let b = wf.block q (ground arith) in omega arith) in
      let rm = total-remove h.blocks a al i in
      let lr = length-remove a al i in
      let sz = wf.alloc_size in
      let fs = wf.free_size in
      let it = wf.alloc_items in
      let fi = wf.free_items in
      let co = wf.conserved in
      let ls = b.least in
      (omega arith, omega arith, omega arith, omega arith, omega arith, ground arith)

  module _ (linked : (h.blocks a).linked ≡ true) (g : ℕ → Block)
      (at : (q : ℕ) → g q ≡ linked_in h.blocks a h.root.free q) where
    pushed-Pushes : Pushes (arena h) (arena (pushed h a g)) fl a
    pushed-Pushes =
        let nf = not_free in
        let b = wf.block a (ground arith) in
        let pos : a ≢ 0 = ground arith in
        let aa = at a in
        record {
          size = λ q. let e = at q in ground arith;
          addr = λ q. let e = at q in ground arith;
          alloc = λ q. let e = at q in ground arith;
          linked = λ q. let e = at q in ground arith;
          type = λ q ne. let e = at q in ground arith;
          freed = (ground arith, linked);
          addr_type = refl;
          size_alloc = refl;
          root_width = refl;
          chain =
              Chain-push h.blocks (update g a (record (g a) { type = 0 })) a h.root.free
                h.root.free_last fl wf.chain pos nf (ground arith, ground arith)
                (λ q ne. let e = at q in (ground arith, ground arith));
          first = refl;
          free_size = refl;
          alloc_size = refl;
          free_items = refl;
          alloc_items = refl;
        }

    pub pushed-IsWellFormed : IsWellFormed (arena (pushed h a g)) (a ∷ fl) (remove a al) 0
    pushed-IsWellFormed = Pushes-IsWellFormed (arena h) (arena (pushed h a g)) wf a i pushed-Pushes

    pub pushed-Honest : Honest h fl → Honest (pushed h a g) (a ∷ fl)
    pushed-Honest hon p fp =
        let e = at p in
        let hp = hon p in
        elim (Bool-cases (p == a)) [ inl hit ↦ ground arith | inr miss ↦ ground arith ]

    pub counted :
        count_free a (sizenn (h.blocks a)) (record h { blocks = g }) ≡ ok tt (pushed h a g)
    counted =
        let b = wf.block a (ground arith) in
        let ex = b.exact in
        let fits = wf.fits in
        let small = wf.small in
        let rwd = wf.root_width in
        let (ca, cb, cc', cd, ce, cf) = counts in
        subst (λ n. count_free a n (record h { blocks = g }) ≡ ok tt (pushed h a g)) (sym ex)
          (count_free_lem a (h.blocks a).size (record h { blocks = g }) (ground arith) (omega arith)
            ca (omega arith) (ground arith) cc' cd ce cf)
