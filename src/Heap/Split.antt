-- ===== src/Heap/Split.antt =====
-- The invariant after the front of a free block has been handed out: the rest takes its place in
-- the free list.
pub mod Correct
pub mod Run
pub mod Theorem
use msgcore.Prelude.{
  ℕ, ◌+◌, ◌-◌, ◌≤◌, ◌<◌, ◌≡◌, ◌≢◌, refl, ap, ◌⊎◌, inl, inr, Bool, true, false, ◌||◌, ◌&&◌, not,
  List, ◌∷◌, has, length, arith, ◌==◌, if◌then◌else◌, Bool-cases,
}
use msgcore.Width.{AddrType, vbheap_min}
use msgcore.Heap.{Block, is_free, sizenn}
use msgcore.Heap.Chain.{Chain, total, remove, IsDistinct, Chain-IsDistinct, has-remove}
use msgcore.Heap.Chain.Rename.{rename, has-rename, length-rename, total-rename}
use msgcore.Heap.Chain.Totals.{total-remove, length-remove, total-frame}
use msgcore.Heap.WellFormed.{IsWellFormed, IsBlock, Arena, starts}

-- `a` keeps `k` bytes and leaves the free list to `e`, the block of the rest.
pub record Splits (m n : Arena) (fl : List ℕ) (a e k : ℕ) : Type 0 where
  pub size :
      (q : ℕ)
      → (n.blocks q).size
        ≡ (if q == a then k else if q == e then (m.blocks a).size - k else (m.blocks q).size)
  pub addr : (q : ℕ) → (n.blocks q).addr ≡ (if q == e then m.addr_type else (m.blocks q).addr)
  pub alloc : (q : ℕ) → (n.blocks q).alloc ≡ (if q == e then true else (m.blocks q).alloc)
  pub type : (q : ℕ) → q ≢ a → (n.blocks q).type ≡ (if q == e then 0 else (m.blocks q).type)
  pub linked :
      (q : ℕ) → q ≢ a → (n.blocks q).linked ≡ (if q == e then true else (m.blocks q).linked)
  pub addr_type : n.addr_type ≡ m.addr_type
  pub size_alloc : n.size_alloc ≡ m.size_alloc
  pub root_width : n.root.addr ≡ m.root.addr
  pub chain : Chain n.blocks 0 n.root.free (rename a e fl) n.root.free_last
  pub first : n.root.alloc < m.size_alloc
  pub free_size : n.root.free_size ≡ m.root.free_size - k
  pub alloc_size : n.root.alloc_size ≡ m.root.alloc_size + k
  pub free_items : n.root.free_items ≡ m.root.free_items
  pub alloc_items : n.root.alloc_items ≡ m.root.alloc_items + 1

module _ (m n : Arena) {fl al : List ℕ} (wf : IsWellFormed m fl al 0) (a e k : ℕ)
    (i : has a fl ≡ true) (at : e ≡ a + k) (front : vbheap_min m.addr_type ≤ k)
    (rest : k + vbheap_min m.addr_type ≤ (m.blocks a).size) (sp : Splits m n fl a e k) where
  -- No block started where the rest now does.
  pub fresh : starts fl al e ≡ false
  fresh =
      let b = wf.block a (ground arith) in
      elim (Bool-cases (starts fl al e)) [
        | inl hit ↦ let ap = b.apart e hit in ground arith
        | inr miss ↦ miss
      ]

  has_free : (q : ℕ) → has q (rename a e fl) ≡ ((has q fl && not (q == a)) || (q == e))
  has_free q =
      let f = fresh in
      let o : has e fl ≡ false = ground arith in ground (arith, has-rename a e q fl o)

  new_starts : (q : ℕ) → starts (rename a e fl) (a ∷ al) q ≡ (starts fl al q || (q == e))
  new_starts q = ground (arith, has_free q)

  exact : (q : ℕ) → starts fl al q ≡ true → sizenn (n.blocks q) ≡ (n.blocks q).size
  unfolding sizenn
  exact q s =
      let d = wf.block q s in
      let sa = sp.addr q in let ss = sp.size q in let f = fresh in ground arith

  exact_rest : sizenn (n.blocks e) ≡ (m.blocks a).size - k
  unfolding sizenn
  exact_rest =
      let b = wf.block a (ground arith) in let sa = sp.addr e in let ss = sp.size e in ground arith

  split-IsBlock :
      (q : ℕ) → starts (rename a e fl) (a ∷ al) q ≡ true → IsBlock n (rename a e fl) (a ∷ al) q
  split-IsBlock q s =
      let b = wf.block a (ground arith) in
      let d = wf.block q in
      let f = fresh in
      let sz = sp.size q in
      let ad = sp.addr q in
      let ac = sp.alloc q in
      let ns = new_starts q in
      elim (Bool-cases (q == e)) [
        | inl hit ↦ record {
          beyond = ground arith;
          inside = ground arith;
          least = ground arith;
          width = ground arith;
          alloc = ground arith;
          exact = ground (arith, exact_rest);
          followed = ground (arith, new_starts (a + (m.blocks a).size));
          apart = λ r sr lt. ground (arith, b.apart r, new_starts r);
        }
        | inr miss ↦
            let sq : starts fl al q ≡ true = ground arith in
            let dq = wf.block q sq in
            let ex = exact q sq in
            elim (Bool-cases (q == a)) [
              | inl hit ↦ record {
                beyond = ground arith;
                inside = ground arith;
                least = ground arith;
                width = ground arith;
                alloc = ground arith;
                exact = ex;
                followed = ground (arith, new_starts e);
                apart = λ r sr lt. ground (arith, b.apart r, new_starts r);
              }
              | inr other ↦
                  let sa : starts fl al a ≡ true = ground arith in
                  let same : (n.blocks q).size ≡ (m.blocks q).size = ground arith in
                  let there = ap (λ s. starts (rename a e fl) (a ∷ al) (q + s)) same in
                  record {
                    beyond = ground arith;
                    inside = ground arith;
                    least = ground arith;
                    width = ground arith;
                    alloc = ground arith;
                    exact = ex;
                    followed = ground (arith, new_starts (q + (m.blocks q).size));
                    apart = λ r sr lt.
                        ground (arith, dq.apart r, dq.apart a sa, b.apart q sq, new_starts r);
                  }
            ]
      ]

  others : (q : ℕ) → starts fl al q ≡ true → q ≢ a → sizenn (n.blocks q) ≡ sizenn (m.blocks q)
  others q s ne =
      let d = wf.block q s in
      let f = fresh in let sz = sp.size q in let ex = exact q s in let ed = d.exact in ground arith

  total_free : total n.blocks (rename a e fl) + k ≡ total m.blocks fl
  total_free =
      let b = wf.block a (ground arith) in
      let ex = b.exact in
      let f = fresh in
      let dist = Chain-IsDistinct m.blocks 0 m.root.free m.root.free_last fl wf.chain in
      let t = total-remove m.blocks a fl i in
      let u = total-rename n.blocks a e fl dist i in
      let fr = total-frame m.blocks n.blocks (remove a fl) (λ q iq.
        others q (ground (arith, has-remove a q fl dist))
          (ground (arith, has-remove a q fl dist))) in
      let er = exact_rest in omega arith

  total_alloc : total n.blocks (a ∷ al) ≡ total m.blocks al + k
  total_alloc =
      let f =
        total-frame m.blocks n.blocks al
          (λ q iq. others q (ground arith) (let dj = wf.disjoint a i in ground arith)) in
      let sz = sp.size a in let ex = exact a (ground arith) in ground arith

  pub Splits-IsWellFormed : IsWellFormed n (rename a e fl) (a ∷ al) a
  Splits-IsWellFormed =
      let dj = wf.disjoint a i in
      let f = fresh in
      let tf = total_free in
      let ta = total_alloc in
      let lr = length-rename a e fl in
      record {
        small = ground arith;
        fits = ground arith;
        root_width = ground arith;
        block = split-IsBlock;
        disjoint = λ q iq. ground (arith, wf.disjoint q, has_free q);
        listed = λ q iq.
            let ty = sp.type q in let li = sp.linked q in ground (arith, wf.listed q, has_free q);
        busy =
            λ q iq ne. let ty = sp.type q ne in let z = wf.block q in ground (arith, wf.busy q, z);
        chain = sp.chain;
        distinct = (dj, wf.distinct);
        first = ground arith;
        free_size = ground arith;
        alloc_size = ground arith;
        free_items = ground arith;
        alloc_items = ground arith;
        conserved = ground arith;
      }
