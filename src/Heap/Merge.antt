-- ===== src/Heap/Merge.antt =====
-- The invariant after a free block has swallowed the free block behind it.
use msgcore.Prelude.{
  ℕ, ◌+◌, ◌-◌, ◌<◌, ◌≡◌, ◌≢◌, inl, inr, true, false, ◌&&◌, not, List, has, arith, ◌==◌,
  if◌then◌else◌, Bool-cases,
}
use msgcore.Width.{addr08}
use msgcore.Heap.{sizenn}
use msgcore.Heap.Chain.{Chain, total, remove, Chain-IsDistinct, has-remove, IsDistinct-remove}
use msgcore.Heap.Chain.Totals.{total-remove, length-remove, total-frame}
use msgcore.Heap.WellFormed.{IsWellFormed, IsBlock, Arena, starts}

-- `q` in `n` is what it was in `m`, but `a` has grown by `next`, whose header is wiped.
pub record Grown (m n : Arena) (a next q : ℕ) : Type 0 where
  pub size :
      (n.blocks q).size
      ≡ (if q == a then (m.blocks a).size + (m.blocks next).size else (m.blocks q).size)
  pub addr : (n.blocks q).addr ≡ (if q == next then addr08 else (m.blocks q).addr)
  pub type : (n.blocks q).type ≡ (if q == next then 0 else (m.blocks q).type)
  pub alloc : (n.blocks q).alloc ≡ (if q == next then false else (m.blocks q).alloc)
  pub linked : (n.blocks q).linked ≡ (if q == next then false else (m.blocks q).linked)

pub record Merges (m n : Arena) (fl : List ℕ) (a next : ℕ) : Type 0 where
  pub grown : (q : ℕ) → Grown m n a next q
  pub addr_type : n.addr_type ≡ m.addr_type
  pub size_alloc : n.size_alloc ≡ m.size_alloc
  pub root_width : n.root.addr ≡ m.root.addr
  pub chain : Chain n.blocks 0 n.root.free (remove next fl) n.root.free_last
  pub first : n.root.alloc < m.size_alloc
  pub free_size : n.root.free_size ≡ m.root.free_size
  pub alloc_size : n.root.alloc_size ≡ m.root.alloc_size
  pub free_items : n.root.free_items ≡ m.root.free_items - 1
  pub alloc_items : n.root.alloc_items ≡ m.root.alloc_items

module _ (m n : Arena) {fl al : List ℕ} {pending : ℕ} (wf : IsWellFormed m fl al pending)
    (a next : ℕ) (ia : has a fl ≡ true) (i : has next fl ≡ true) (e : next ≡ a + (m.blocks a).size)
    (mg : Merges m n fl a next) where
  open wf use {chain, block, fits, small}

  distinct_free : (q : ℕ) → has q (remove next fl) ≡ (has q fl && not (q == next))
  distinct_free q =
      has-remove next q fl (Chain-IsDistinct m.blocks 0 m.root.free m.root.free_last fl chain)

  fewer : (q : ℕ) → starts (remove next fl) al q ≡ (starts fl al q && not (q == next))
  fewer q = ground (arith, distinct_free q, wf.disjoint next)

  grown_exact : sizenn (n.blocks a) ≡ (m.blocks a).size + (m.blocks next).size
  unfolding sizenn
  grown_exact =
      let b = block a (ground arith) in
      let c = block next (ground arith) in ground (arith, mg.grown a)

  others_exact : (q : ℕ) → q ≢ a → q ≢ next → sizenn (n.blocks q) ≡ sizenn (m.blocks q)
  unfolding sizenn
  others_exact q ne ne' = ground (arith, mg.grown q)

  m-least : (q : ℕ) → starts fl al q ≡ true → 0 < (m.blocks q).size
  m-least q s = let d = block q s in ground arith

  merged-IsBlock : (q : ℕ) → starts (remove next fl) al q ≡ true → IsBlock n (remove next fl) al q
  merged-IsBlock q s =
      let b = block a (ground arith) in
      let c = block next (ground arith) in
      let d = block q (ground (arith, fewer q)) in
      let gq = mg.grown q in
      elim (Bool-cases (q == a)) [
        | inl hit ↦ record {
          beyond = ground arith;
          inside = ground arith;
          least = ground arith;
          width = ground arith;
          alloc = ground arith;
          exact = ground (arith, grown_exact);
          followed = ground (arith, fewer (next + (m.blocks next).size));
          apart = λ r sr lt. ground (arith, b.apart r, c.apart r, fewer r);
        }
        | inr miss ↦
            let other : q ≢ next = ground (arith, fewer q) in
            let sa : starts fl al a ≡ true = ground arith in
            let sq : starts fl al q ≡ true = ground (arith, fewer q) in
            let pos = m-least q sq in
            let short : q + (m.blocks q).size ≢ next = ground (arith, d.apart a sa, b.apart q sq) in
            let same : (n.blocks q).size ≡ (m.blocks q).size = ground arith in
            record {
              beyond = ground arith;
              inside = ground arith;
              least = ground arith;
              width = ground arith;
              alloc = ground arith;
              exact = ground (arith, others_exact q);
              followed = rw same (ground (arith, fewer (q + (m.blocks q).size)));
              apart = λ r sr lt. ground (arith, d.apart r, fewer r);
            }
      ]

  -- The free blocks have the same total: what one lost, the other gained.
  total_free : total n.blocks (remove next fl) ≡ total m.blocks fl
  total_free =
      let b = block a (ground arith) in
      let c = block next (ground arith) in
      let d =
        IsDistinct-remove next fl
          (Chain-IsDistinct m.blocks 0 m.root.free m.root.free_last fl chain) in
      let rest = total-frame m.blocks n.blocks (remove a (remove next fl)) (λ q iq.
        ground (arith, others_exact q, distinct_free q, has-remove a q (remove next fl) d)) in
      let t = total-remove n.blocks a (remove next fl) (ground (arith, distinct_free a)) in
      let u = total-remove m.blocks a (remove next fl) (ground (arith, distinct_free a)) in
      let v = total-remove m.blocks next fl i in let g = grown_exact in omega arith

  total_alloc : total n.blocks al ≡ total m.blocks al
  total_alloc =
      total-frame m.blocks n.blocks al
        (λ q iq. ground (arith, others_exact q, wf.disjoint a, wf.disjoint next))

  -- The heap stays well-formed, with one free block less.
  pub Merges-IsWellFormed : IsWellFormed n (remove next fl) al pending
  Merges-IsWellFormed = record {
    small = ground arith;
    fits = ground arith;
    root_width = ground arith;
    block = merged-IsBlock;
    disjoint = λ q iq. ground (arith, wf.disjoint q, distinct_free q);
    listed = λ q iq. ground (arith, wf.listed q, distinct_free q, mg.grown q);
    busy = λ q iq ne. ground (arith, wf.busy q, wf.disjoint next, mg.grown q);
    chain = mg.chain;
    distinct = wf.distinct;
    first = ground arith;
    free_size = ground (arith, total_free);
    alloc_size = ground (arith, total_alloc);
    free_items = ground (arith, length-remove next fl i);
    alloc_items = ground arith;
    conserved = ground (arith, total_free, total_alloc);
  }
