-- ===== src/Heap/Load/Overhang.antt =====
-- An image whose last block runs past its end is accepted.
use msgcore.Prelude.{
  ℕ, zero, suc, ◌+◌, ◌/◌, ◌%◌, ◌^◌, ◌≤◌, ◌<◌, ◌≡◌, refl, Bool, true, false, ◌||◌, ◌&&◌, not, some,
  arith, leb, ltb, ◌==◌, sym, ap, ◌∙◌, subst,
}
use msgcore.Width.{AddrType, addr08, addr16, addr32, addr64, sizeof_hdr, vbheap_min, same_addr}
use msgcore.Root.{get_items}
use msgcore.Heap.{Heap, ok, sizenn, is_addr, max_blocks}
use msgcore.Heap.Validate.{
  Tally, Count, valid_iomage, valid_vblocks, valid_free, block_walk, tally_block, block_fits,
  free_walk, diag_root,
}
use msgcore.Heap.Load.{judge}

pub free_walk_end : (m : ℕ) (g : Bool) (h : Heap) (c : Count) → free_walk m g h c 0 ≡ some c
unfolding free_walk
free_walk_end zero g h c = refl
free_walk_end (suc m) g h c = refl

get_items_one : (w : AddrType) → get_items w 1 ≡ 1
get_items_one addr08 = refl
get_items_one addr16 = refl
get_items_one addr32 = refl
get_items_one addr64 = refl

pub get_items_zero : (w : AddrType) → get_items w 0 ≡ 0
get_items_zero addr08 = refl
get_items_zero addr16 = refl
get_items_zero addr32 = refl
get_items_zero addr64 = refl

pub block_walk_past :
    (fuel a : ℕ) (g : Bool) (t : Tally) (h : Heap)
    → 0 < fuel
    → h.size_alloc ≤ a
    → block_walk fuel g a t h ≡ ok (some t) h
unfolding block_walk
block_walk_past zero a g t h p l = absurd (omega arith)
block_walk_past (suc fuel) a g t h p l =
    let e : leb h.size_alloc a ≡ true = ground arith in rw e refl

-- The heap has one free block, which the root counts, and which may be of any size up to the whole
-- image's, wherever it begins.
pub record OneFree (h : Heap) (a : ℕ) : Type 0 where
  pub at : a ≡ 8 + h.root.size
  pub fits : a + vbheap_min h.addr_type ≤ h.size_alloc
  pub small : h.size_alloc < 0x100_0000
  pub width : h.root.addr ≡ h.addr_type
  pub free : h.root.free ≡ a
  pub free_last : h.root.free_last ≡ a
  pub items : h.root.free_items ≡ 1
  pub size : h.root.free_size ≡ (h.blocks a).size
  pub none_used : (h.root.alloc ≡ 0) × (h.root.alloc_items ≡ 0) × (h.root.alloc_size ≡ 0)
  pub bytes : (0 < (h.blocks a).size) × ((h.blocks a).size ≤ h.size_alloc)
  pub covers : h.size_alloc ≤ a + (h.blocks a).size
  pub block : (h.blocks a).addr ≡ h.addr_type
  pub flags : ((h.blocks a).type ≡ 0) × ((h.blocks a).alloc ≡ true) × ((h.blocks a).linked ≡ true)
  pub alone : ((h.blocks a).prev ≡ 0) × ((h.blocks a).next ≡ 0)

module _ (h : Heap) (a : ℕ) (o : OneFree h a) where
  same_refl : (w : AddrType) → same_addr w w ≡ true
  same_refl w = ground arith

  whole_size : sizenn (h.blocks a) ≡ (h.blocks a).size
  unfolding sizenn
  whole_size = let b = o.bytes in let s = o.small in ground arith

  its_width : is_addr (h.blocks a) h.addr_type ≡ true
  its_width = subst (λ w. same_addr w h.addr_type ≡ true) (sym o.block) (same_refl h.addr_type)

  fits_image : block_fits h a ≡ true
  unfolding block_fits
  fits_image =
      let e = o.at in
      let f : a + vbheap_min (h.blocks a).addr ≤ h.size_alloc =
        subst (λ w. a + vbheap_min w ≤ h.size_alloc) (sym o.block) o.fits in
      ground arith

  is_valid : valid_free h a ≡ true
  unfolding valid_free
  is_valid =
      let f = fits_image in
      let w = its_width in let fl = o.flags in let al = o.alone in ground arith

  abbrev counted : Count
  counted = record { entries = 1; size = (h.blocks a).size; result = true }

  free_walk-run :
      (m : ℕ)
      → free_walk (suc m) true h (record { entries = 0; size = 0; result = true }) a ≡ some counted
  unfolding free_walk
  free_walk-run m =
      let f = fits_image in
      let w = its_width in
      let v = is_valid in
      let z = whole_size in
      let fl = o.flags in
      let al = o.alone in
      let e = o.at in
      let b = o.bytes in
      let s = o.small in
      let rest : free_walk m true h counted (h.blocks a).next ≡ some counted =
        subst (λ q. free_walk m true h counted q ≡ some counted) (sym al.1)
          (free_walk_end m true h counted) in
      let sz : (0 + sizenn (h.blocks a)) % 2 ^ 64 ≡ (h.blocks a).size = ground arith in ground arith

  root_fine : diag_root true h.root ≡ true
  unfolding diag_root
  root_fine =
      let e = o.at in
      let f = o.free in
      let l = o.free_last in let z = o.size in let b = o.bytes in let s = o.small in ground arith

  walk-run :
      free_walk
        (max_blocks h)
        true
        h
        (record { entries = 0; size = 0; result = diag_root true h.root })
        h.root.free
      ≡ some counted
  unfolding max_blocks
  walk-run =
      let m : h.size_alloc / sizeof_hdr h.addr_type + 1
          ≡ suc (h.size_alloc / sizeof_hdr h.addr_type) =
        omega arith in
      rw (m, root_fine)
        (subst
          (λ q.
            free_walk (suc (h.size_alloc / sizeof_hdr h.addr_type)) true h
              (record { entries = 0; size = 0; result = true }) q
            ≡ some counted)
          (sym o.free) (free_walk-run (h.size_alloc / sizeof_hdr h.addr_type)))

  valid_iomage-run : valid_iomage true h ≡ ok true (record h { free_entries = 1 })
  unfolding valid_iomage
  valid_iomage-run =
      let fs = o.size in
      let it : get_items h.root.addr h.root.free_items ≡ 1 =
        ap (get_items h.root.addr) o.items ∙ get_items_one h.root.addr in
      rw (valid_iomage, walk-run) (ground arith)

  tally-run :
      tally_block true a
        (record {
          free_entries = 0;
          free_size = 0;
          alloc_entries = 0;
          alloc_size = 0;
          result = true;
        })
        h
      ≡ ok
          (record {
            free_entries = 1;
            free_size = (h.blocks a).size;
            alloc_entries = 0;
            alloc_size = 0;
            result = true;
          })
          h
  unfolding tally_block
  tally-run =
      let w = its_width in
      let v = is_valid in
      let z = whole_size in let fl = o.flags in let b = o.bytes in let s = o.small in ground arith

  block_walk-run :
      block_walk
        (h.size_alloc + 1)
        true
        a
        (record {
          free_entries = 0;
          free_size = 0;
          alloc_entries = 0;
          alloc_size = 0;
          result = true;
        })
        h
      ≡ ok
          (some (record {
            free_entries = 1;
            free_size = (h.blocks a).size;
            alloc_entries = 0;
            alloc_size = 0;
            result = true;
          }))
          h
  unfolding block_walk
  block_walk-run =
      let fuel : h.size_alloc + 1 ≡ suc h.size_alloc = omega arith in
      let f = o.fits in
      let f' = fits_image in
      let z = whole_size in
      let b = o.bytes in
      let within : leb h.size_alloc a ≡ false = ground arith in
      let go : (not true && true)
            || (sizenn (h.blocks a) == 0)
            || ltb h.size_alloc (sizenn (h.blocks a))
          ≡ false =
        ground arith in
      let c = o.covers in
      rw (fuel, within, f', tally-run, go)
        (block_walk_past h.size_alloc (a + sizenn (h.blocks a)) true _ h (ground arith)
          (ground arith))

  valid_vblocks-run : valid_vblocks true h ≡ ok true h
  unfolding valid_vblocks
  valid_vblocks-run =
      let e = o.at in
      let z = o.size in
      let it = o.items in
      let s = o.small in
      let b = o.bytes in
      let nu = o.none_used in
      let r : ltb h.root.free_size 200_000_000 || false ≡ true = ground arith in
      let fi : get_items h.root.addr h.root.free_items ≡ 1 =
        ap (get_items h.root.addr) it ∙ get_items_one h.root.addr in
      let ai : get_items h.root.addr h.root.alloc_items ≡ 0 =
        ap (get_items h.root.addr) nu.1 ∙ get_items_zero h.root.addr in
      rw (r, sym e, block_walk-run) (ground arith)

-- The heap with its count of free blocks taken.
OneFree-count : (h : Heap) (a n : ℕ) → OneFree h a → OneFree (record h { free_entries = n }) a
OneFree-count h a n o = record {
  at = o.at;
  fits = o.fits;
  small = o.small;
  width = o.width;
  free = o.free;
  free_last = o.free_last;
  items = o.items;
  size = o.size;
  none_used = o.none_used;
  bytes = o.bytes;
  covers = o.covers;
  block = o.block;
  flags = o.flags;
  alone = o.alone;
}

pub judge-accepts :
    (h : Heap) (a : ℕ) → OneFree h a → judge h ≡ ok true (record h { free_entries = 1 })
unfolding judge
judge-accepts h a o =
    let z : h.root.alloc == 0 ≡ true = let n = o.none_used in ground arith in
    rw
      (
        valid_iomage-run h a o,
        valid_vblocks-run (record h { free_entries = 1 }) a (OneFree-count h a 1 o),
        z,
      )
      refl
