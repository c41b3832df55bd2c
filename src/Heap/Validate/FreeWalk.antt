-- ===== src/Heap/Validate/FreeWalk.antt =====
-- The validating walk over the free list of a well-formed heap: it ends, finds nothing wrong, and
-- repairs nothing.
use msgcore.Prelude.{
  ℕ, zero, suc, ◌+◌, ◌*◌, ◌/◌, ◌%◌, ◌^◌, ◌≤◌, ◌<◌, ◌≡◌, sym, subst, Bool, true, false, ◌||◌, ◌&&◌,
  not, List, [], ◌∷◌, has, length, arith, ltb, ◌==◌, some,
}
use msgcore.Width.{AddrType, addr08, addr16, addr32, addr64, vbheap_min, sizeof_hdr}
use msgcore.Root.{get_items}
use msgcore.Heap.{Block, Heap, ok, sizenn, is_addr, max_blocks}
use msgcore.Heap.Chain.{
  Chain, Chain-null_ends, total, Chain-next, Chain-prev, Chain-not-null, Chain-end,
}
use msgcore.Heap.Chain.Totals.{length-le-total}
use msgcore.Heap.WellFormed.{IsWellFormed, arena}
use msgcore.Heap.Validate.{
  Count, block_fits, free_header, valid_free, free_walk, diag, diag_root, valid_iomage,
}

pub least_total :
    (f : ℕ → Block) (k : ℕ) (xs : List ℕ)
    → ((q : ℕ) → has q xs ≡ true → k ≤ sizenn (f q))
    → length xs * k ≤ total f xs
least_total f k [] least = ground arith
least_total f k (x ∷ xs) least =
    let ih = least_total f k xs (λ q i. least q (ground arith)) in
    let x' = least x (ground arith) in ground arith

-- A list of blocks that the image holds is no longer than the bound of the walks.
few_blocks : (w : AddrType) (n t s : ℕ) → n * vbheap_min w ≤ t → t ≤ s → n ≤ s / sizeof_hdr w + 1
few_blocks addr08 n t s le le' = ground arith
few_blocks addr16 n t s le le' = ground arith
few_blocks addr32 n t s le le' = ground arith
few_blocks addr64 n t s le le' = ground arith

valid_iomage-run :
    (gate : Bool) (h : Heap) (n : ℕ)
    → free_walk
        (max_blocks h)
        gate
        h
        (record { entries = 0; size = 0; result = diag_root gate h.root })
        h.root.free
      ≡ some
          (record { entries = 0 + n; size = 0 + h.root.free_size; result = diag_root gate h.root })
    → get_items h.root.addr h.root.free_items ≡ n
    → (h.root.free == 0) ≡ (h.root.free_last == 0)
    → valid_iomage gate h
      ≡ ok (diag gate (ltb h.root.free_size 200_000_000) true) (record h { free_entries = n })
unfolding valid_iomage diag_root
valid_iomage-run gate h n walk items null = rw (valid_iomage, walk) (ground arith)

module _ (h : Heap) {fl al : List ℕ} {pending : ℕ} (wf : IsWellFormed (arena h) fl al pending) where
  fits-free : (a : ℕ) → has a fl ≡ true → (block_fits h a ≡ true) × (free_header h a ≡ true)
  unfolding block_fits
  fits-free a i =
      let b = wf.block a (ground arith) in
      let (ty, li) = wf.listed a i in
      let wd = b.width in let ac = b.alloc in (ground arith, ground arith)

  valid_free-ok : (a : ℕ) → has a fl ≡ true → valid_free h a ≡ true
  unfolding valid_free
  valid_free-ok a i =
      let z = Chain-not-null h.blocks 0 h.root.free h.root.free_last fl wf.chain in
      let cn = Chain-next h.blocks 0 h.root.free h.root.free_last a fl wf.chain i in
      let cp = Chain-prev h.blocks 0 h.root.free h.root.free_last a fl wf.chain z i in
      let (fa, ha) = fits-free a i in
      ground (arith, fits-free (h.blocks a).prev, fits-free (h.blocks a).next)

  free_walk-ok :
      (gate : Bool) (more : ℕ) (c : Count) (p a : ℕ) (xs : List ℕ)
      → Chain h.blocks p a xs h.root.free_last
      → ((q : ℕ) → has q xs ≡ true → has q fl ≡ true)
      → length xs ≤ more
      → c.size + total h.blocks xs < 2 ^ 64
      → free_walk more gate h c a
        ≡ some (record {
          entries = c.entries + length xs;
          size = c.size + total h.blocks xs;
          result = c.result;
        })
  unfolding free_walk
  free_walk-ok gate zero c p a [] ch sub le fit = ground arith
  free_walk-ok gate zero c p a (x ∷ xs) ch sub le fit = absurd (omega arith)
  free_walk-ok gate (suc more) c p a [] ch sub le fit = ground arith
  free_walk-ok gate (suc more) c p a (x ∷ xs) (e, ne, out, back, rest) sub le fit =
      let i = sub x (ground arith) in
      let vf = valid_free-ok x i in
      let (bf, fh) = fits-free x i in
      let z = Chain-not-null h.blocks 0 h.root.free h.root.free_last fl wf.chain in
      let cp = Chain-prev h.blocks 0 h.root.free h.root.free_last x fl wf.chain z i in
      let ce = Chain-end h.blocks 0 h.root.free h.root.free_last x fl wf.chain i in
      let good : diag gate
            (is_addr (h.blocks x) h.addr_type
              && valid_free h x
              && (((not (x == h.root.free)) || ((h.blocks x).prev == 0))
                  && ((not (x == h.root.free_last)) || ((h.blocks x).next == 0))))
            c.result
          ≡ c.result =
        ground arith in
      let sum : (c.size + sizenn (h.blocks x)) % 2 ^ 64 ≡ c.size + sizenn (h.blocks x) =
        omega arith in
      let ih =
        free_walk-ok gate more
          (record {
            entries = c.entries + 1;
            size = c.size + sizenn (h.blocks x);
            result = c.result;
          })
          x (h.blocks x).next xs rest (λ q j. sub q (ground arith)) (omega arith) (omega arith) in
      let there : (x == 0) ≡ false = ground arith in rw (e, there, bf, good, sum, ih) (ground arith)

  pub valid_iomage-ok :
      (gate : Bool)
      → valid_iomage gate h
        ≡ ok
            (diag gate (ltb h.root.free_size 200_000_000) true)
            (record h { free_entries = length fl })
  unfolding max_blocks
  valid_iomage-ok gate =
      let lt =
        least_total h.blocks (vbheap_min h.addr_type) fl
          (λ q i. let b = wf.block q (ground arith) in omega arith) in
      let fs = wf.free_size in
      let fi = wf.free_items in
      let co = wf.conserved in
      let sm = wf.small in
      let few =
        few_blocks h.addr_type (length fl) (total h.blocks fl) h.size_alloc lt (omega arith) in
      let c : Count = record { entries = 0; size = 0; result = diag_root gate h.root } in
      let walk =
        free_walk-ok gate (max_blocks h) c 0 h.root.free fl wf.chain (λ q i. i) few (omega arith) in
      valid_iomage-run gate h (length fl)
        (subst
          (λ s.
            free_walk (max_blocks h) gate h c h.root.free
            ≡ some (record { entries = 0 + length fl; size = 0 + s; result = c.result }))
          (sym fs) walk)
        (ground (arith, length-le-total h.blocks fl))
        (Chain-null_ends h.blocks h.root.free h.root.free_last fl wf.chain)
