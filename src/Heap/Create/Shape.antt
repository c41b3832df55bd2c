-- ===== src/Heap/Create/Shape.antt =====
-- A new image heap whose size is a multiple of eight is well-formed.
use msgcore.Prelude.{
  ℕ, ◌+◌, ◌-◌, ◌%◌, ◌≤◌, ◌<◌, ◌≡◌, ◌≢◌, refl, true, [], ◌∷◌, arith, some, ◌==◌, if◌then◌else◌,
}
use msgcore.Width.{AddrType, addr08, addr_limit, sizeof_root, vbheap_min, vbheap_max}
use msgcore.Heap.{Heap, sizenn}
use msgcore.Heap.WellFormed.{IsWellFormed, IsBlock, arena, starts}
use msgcore.Heap.Create.{create_iomage, round_up}
use msgcore.Heap.Create.Fresh.{Fresh, create_iomage-ok}

module _ (w : AddrType) (initial max : ℕ) (h : Heap) (fr : Fresh w initial max h)
    (whole : initial % 8 ≡ 0) (small : initial + 8 < 0x8000_0000) (fit : initial + 8 < addr_limit w)
    (room : sizeof_root w + vbheap_min w ≤ initial) where
  fresh-exact : sizenn (h.blocks (8 + sizeof_root w)) ≡ initial - sizeof_root w
  unfolding sizenn
  fresh-exact =
      let (r, b, t, s, u, f, m, v, rest) = fr in
      let e : round_up (initial + 8) ≡ initial + 8 = omega arith in rw (b, e) (ground arith)

  fresh-IsBlock :
      (a : ℕ)
      → starts ((8 + sizeof_root w) ∷ []) [] a ≡ true
      → IsBlock (arena h) ((8 + sizeof_root w) ∷ []) [] a
  fresh-IsBlock a s =
      let (r, b, t, sz, u, f, m, v, rest) = fr in
      let e : round_up (initial + 8) ≡ initial + 8 = omega arith in
      let at : a ≡ 8 + sizeof_root w = ground arith in
      let ex = fresh-exact in
      record {
        beyond = ground arith;
        inside = ground arith;
        least = ground arith;
        width = ground arith;
        alloc = ground arith;
        exact = ground arith;
        followed = ground arith;
        apart = λ q sq lt. ground arith;
      }

  pub Fresh-IsWellFormed : IsWellFormed (arena h) ((8 + sizeof_root w) ∷ []) [] 0
  Fresh-IsWellFormed =
      let (r, b, t, sz, u, f, m, v, rest) = fr in
      let e : round_up (initial + 8) ≡ initial + 8 = omega arith in
      let ex = fresh-exact in
      record {
        small = ground arith;
        fits = ground arith;
        root_width = ground arith;
        block = fresh-IsBlock;
        disjoint = λ q iq. refl;
        listed = λ q iq. ground arith;
        busy = λ q iq ne. ground arith;
        chain = ground arith;
        distinct = tt;
        first = ground arith;
        free_size = ground arith;
        alloc_size = ground arith;
        free_items = ground arith;
        alloc_items = ground arith;
        conserved = ground arith;
      }

abbrev pub Created : AddrType → ℕ → ℕ → Type 0
Created w initial max =
    (h : Heap) × (create_iomage w initial max ≡ some h)
    × IsWellFormed (arena h) ((8 + sizeof_root w) ∷ []) [] 0
    × (h.size_used ≡ 0)
    × (h.size_alloc ≡ initial + 8)

-- A new image whose initial size is a multiple of 8, with room for a root and a free block, is a
-- well-formed heap with one free block and none allocated, of which nothing is used.
pub create_iomage-IsWellFormed :
    (w : AddrType) (initial max : ℕ)
    → w ≢ addr08
    → initial ≤ (if max == 0 then vbheap_max w else max)
    → max ≤ vbheap_max w
    → initial % 8 ≡ 0
    → initial + 8 < 0x8000_0000
    → initial + 8 < addr_limit w
    → sizeof_root w + vbheap_min w ≤ initial
    → Created w initial max
create_iomage-IsWellFormed w initial max ne le top whole small fit room =
    let (h, run, fr) =
      create_iomage-ok w initial max ne le top (ground arith) (ground arith) (omega arith) in
    (h, run, Fresh-IsWellFormed w initial max h fr whole small fit room, fr.4, fr.3)
