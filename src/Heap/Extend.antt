-- ===== src/Heap/Extend.antt =====
-- The invariant after the arena has grown by a free block at its end.
pub mod Run
pub mod Theorem
use msgcore.Prelude.{
  ℕ, ◌+◌, ◌-◌, ◌≤◌, ◌<◌, ◌≡◌, ◌≢◌, refl, ap, ◌⊎◌, inl, inr, Bool, true, false, ◌||◌, ◌&&◌, not,
  List, [], ◌∷◌, has, length, arith, ◌==◌, if◌then◌else◌, Bool-cases,
}
use msgcore.Width.{AddrType, addr_limit, vbheap_min}
use msgcore.Heap.{Block, is_free, sizenn}
use msgcore.Heap.Chain.{Chain, total, IsDistinct}
use msgcore.Heap.Chain.Append.{append, has-append, length-append, total-append}
use msgcore.Heap.Chain.Totals.{total-frame}
use msgcore.Heap.WellFormed.{IsWellFormed, IsBlock, Arena, starts}

-- A free block of `x` bytes stands where `m` ended.
pub record Extends (m n : Arena) (fl : List ℕ) (x : ℕ) : Type 0 where
  pub size : (q : ℕ) → q < m.size_alloc → (n.blocks q).size ≡ (m.blocks q).size
  pub addr : (q : ℕ) → q < m.size_alloc → (n.blocks q).addr ≡ (m.blocks q).addr
  pub alloc : (q : ℕ) → q < m.size_alloc → (n.blocks q).alloc ≡ (m.blocks q).alloc
  pub linked : (q : ℕ) → q < m.size_alloc → (n.blocks q).linked ≡ (m.blocks q).linked
  pub type : (q : ℕ) → q < m.size_alloc → (n.blocks q).type ≡ (m.blocks q).type
  pub tail_size : (n.blocks m.size_alloc).size ≡ x
  pub tail_addr : (n.blocks m.size_alloc).addr ≡ m.addr_type
  pub tail_bits :
      ((n.blocks m.size_alloc).type ≡ 0)
      × ((n.blocks m.size_alloc).alloc ≡ true)
      × ((n.blocks m.size_alloc).linked ≡ true)
  pub addr_type : n.addr_type ≡ m.addr_type
  pub size_alloc : n.size_alloc ≡ m.size_alloc + x
  pub root_width : n.root.addr ≡ m.root.addr
  pub chain : Chain n.blocks 0 n.root.free (append fl m.size_alloc) n.root.free_last
  pub first : n.root.alloc ≡ m.root.alloc
  pub free_size : n.root.free_size ≡ m.root.free_size + x
  pub alloc_size : n.root.alloc_size ≡ m.root.alloc_size
  pub free_items : n.root.free_items ≡ m.root.free_items + 1
  pub alloc_items : n.root.alloc_items ≡ m.root.alloc_items

module _ (m n : Arena) {fl al : List ℕ} (wf : IsWellFormed m fl al 0) (x : ℕ)
    (least : vbheap_min m.addr_type ≤ x) (small : m.size_alloc + x < 0x8000_0000)
    (fits : m.size_alloc + x < addr_limit m.addr_type) (ex : Extends m n fl x) where
  pub below : (q : ℕ) → starts fl al q ≡ true → q < m.size_alloc
  below q s = let b = wf.block q s in ground arith

  new_starts :
      (q : ℕ) → starts (append fl m.size_alloc) al q ≡ (starts fl al q || (q == m.size_alloc))
  new_starts q = ground (arith, has-append q m.size_alloc fl)

  same_sizenn : (q : ℕ) → starts fl al q ≡ true → sizenn (n.blocks q) ≡ sizenn (m.blocks q)
  unfolding sizenn
  same_sizenn q s = let lt = below q s in rw (ex.size q lt, ex.addr q lt) refl

  tail_exact : sizenn (n.blocks m.size_alloc) ≡ x
  unfolding sizenn
  tail_exact = let s = ex.tail_size in let a = ex.tail_addr in ground arith

  extended-IsBlock :
      (q : ℕ)
      → starts (append fl m.size_alloc) al q ≡ true
      → IsBlock n (append fl m.size_alloc) al q
  extended-IsBlock q s =
      let ns = new_starts q in
      let at = ex.addr_type in
      let sa = ex.size_alloc in
      elim (Bool-cases (starts fl al q)) [
        | inl old ↦
            let d = wf.block q old in
            let lt = below q old in
            let sz = ex.size q lt in
            let ad = ex.addr q lt in
            let ac = ex.alloc q lt in
            record {
              beyond = ground arith;
              inside = ground arith;
              least = ground arith;
              width = ground arith;
              alloc = ground arith;
              exact = ground (arith, same_sizenn q);
              followed =
                  let there = ap (λ s. starts fl al (q + s)) sz in
                  ground (arith, new_starts (q + (n.blocks q).size));
              apart = λ r sr l. ground (arith, d.apart r, new_starts r);
            }
        | inr fresh ↦
            let e : q ≡ m.size_alloc = ground arith in
            let ts = ex.tail_size in
            let ta = ex.tail_addr in
            let (tt₁, tt₂, tt₃) = ex.tail_bits in
            let co = wf.conserved in
            record {
              beyond = ground arith;
              inside = ground arith;
              least = ground arith;
              width = ground arith;
              alloc = ground arith;
              exact = ground (arith, tail_exact);
              followed = ground arith;
              apart = λ r sr l. ground (arith, new_starts r, below r);
            }
      ]

  total_free : total n.blocks (append fl m.size_alloc) ≡ total m.blocks fl + x
  total_free =
      let t = total-append n.blocks m.size_alloc fl in
      let f = total-frame m.blocks n.blocks fl (λ q iq. same_sizenn q (ground arith)) in
      let e = tail_exact in omega arith

  total_alloc : total n.blocks al ≡ total m.blocks al
  total_alloc = total-frame m.blocks n.blocks al (λ q iq. same_sizenn q (ground arith))

  pub Extends-IsWellFormed : IsWellFormed n (append fl m.size_alloc) al 0
  Extends-IsWellFormed =
      let at = ex.addr_type in
      let sa = ex.size_alloc in
      let tf = total_free in
      let ta = total_alloc in
      let la = length-append m.size_alloc fl in
      let (b₁, b₂, b₃) = ex.tail_bits in
      let w = wf.first in
      let e₁ = ex.first in
      record {
        small = ground arith;
        fits = ground arith;
        root_width = ground arith;
        block = extended-IsBlock;
        disjoint = λ q iq. ground (arith, wf.disjoint q, has-append q m.size_alloc fl, below q);
        listed = λ q iq.
            let t = ex.type q in
            let li = ex.linked q in
            ground (arith, wf.listed q, has-append q m.size_alloc fl, below q);
        busy = λ q iq ne. let t = ex.type q in ground (arith, wf.busy q, below q);
        chain = ex.chain;
        distinct = wf.distinct;
        first = ground arith;
        free_size = ground arith;
        alloc_size = ground arith;
        free_items = ground arith;
        alloc_items = ground arith;
        conserved = ground arith;
      }
