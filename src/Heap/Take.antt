-- ===== src/Heap/Take.antt =====
-- The invariant after a whole free block has been handed out.
pub mod Run
use msgcore.Prelude.{
  ℕ, ◌+◌, ◌-◌, ◌≤◌, ◌<◌, ◌≡◌, ◌≢◌, refl, ap, ◌⊎◌, inl, inr, Bool, true, false, ◌||◌, ◌&&◌, not,
  List, ◌∷◌, has, length, arith, ◌==◌, Bool-cases,
}
use msgcore.Width.{AddrType, vbheap_min}
use msgcore.Heap.{Block, is_free, sizenn}
use msgcore.Heap.Chain.{Chain, total, remove, IsDistinct, Chain-IsDistinct, has-remove}
use msgcore.Heap.Chain.Totals.{total-remove, length-remove, total-frame}
use msgcore.Heap.WellFormed.{IsWellFormed, IsBlock, Arena, starts}

-- `a` has left the free list; its type and linked bit are anything yet.
pub record Takes (m n : Arena) (fl : List ℕ) (a : ℕ) : Type 0 where
  pub size : (q : ℕ) → (n.blocks q).size ≡ (m.blocks q).size
  pub addr : (q : ℕ) → (n.blocks q).addr ≡ (m.blocks q).addr
  pub alloc : (q : ℕ) → (n.blocks q).alloc ≡ (m.blocks q).alloc
  pub type : (q : ℕ) → q ≢ a → (n.blocks q).type ≡ (m.blocks q).type
  pub linked : (q : ℕ) → q ≢ a → (n.blocks q).linked ≡ (m.blocks q).linked
  pub addr_type : n.addr_type ≡ m.addr_type
  pub size_alloc : n.size_alloc ≡ m.size_alloc
  pub root_width : n.root.addr ≡ m.root.addr
  pub chain : Chain n.blocks 0 n.root.free (remove a fl) n.root.free_last
  pub first : n.root.alloc < m.size_alloc
  pub free_size : n.root.free_size ≡ m.root.free_size - (m.blocks a).size
  pub alloc_size : n.root.alloc_size ≡ m.root.alloc_size + (m.blocks a).size
  pub free_items : n.root.free_items ≡ m.root.free_items - 1
  pub alloc_items : n.root.alloc_items ≡ m.root.alloc_items + 1

module _ (m n : Arena) {fl al : List ℕ} (wf : IsWellFormed m fl al 0) (a : ℕ) (i : has a fl ≡ true)
    (tk : Takes m n fl a) where
  distinct_free : (q : ℕ) → has q (remove a fl) ≡ (has q fl && not (q == a))
  distinct_free q =
      has-remove a q fl (Chain-IsDistinct m.blocks 0 m.root.free m.root.free_last fl wf.chain)

  same_starts : (q : ℕ) → starts (remove a fl) (a ∷ al) q ≡ starts fl al q
  same_starts q = ground (arith, distinct_free q)

  same_sizenn : (q : ℕ) → sizenn (n.blocks q) ≡ sizenn (m.blocks q)
  unfolding sizenn
  same_sizenn q = rw (tk.size q, tk.addr q) refl

  taken-IsBlock :
      (q : ℕ) → starts (remove a fl) (a ∷ al) q ≡ true → IsBlock n (remove a fl) (a ∷ al) q
  taken-IsBlock q s =
      let d = wf.block q (ground (arith, same_starts q)) in
      let sz = tk.size q in
      let ad = tk.addr q in
      let ac = tk.alloc q in
      record {
        beyond = ground arith;
        inside = ground arith;
        least = ground arith;
        width = ground arith;
        alloc = ground arith;
        exact = ground (arith, same_sizenn q);
        followed =
            let there = ap (λ s. starts fl al (q + s)) sz in
            ground (arith, same_starts (q + (n.blocks q).size));
        apart = λ r sr lt. ground (arith, d.apart r, same_starts r);
      }

  total_free : total n.blocks (remove a fl) + (m.blocks a).size ≡ total m.blocks fl
  total_free =
      let b = wf.block a (ground arith) in
      let ex = b.exact in
      let t = total-remove m.blocks a fl i in
      let f = total-frame m.blocks n.blocks (remove a fl) (λ q iq. same_sizenn q) in omega arith

  total_alloc : total n.blocks (a ∷ al) ≡ total m.blocks al + (m.blocks a).size
  total_alloc =
      let b = wf.block a (ground arith) in
      let f = total-frame m.blocks n.blocks al (λ q iq. same_sizenn q) in
      ground (arith, same_sizenn a)

  pub Takes-IsWellFormed : IsWellFormed n (remove a fl) (a ∷ al) a
  Takes-IsWellFormed =
      let dj = wf.disjoint a i in
      let tf = total_free in
      let ta = total_alloc in
      let lr = length-remove a fl i in
      record {
        small = ground arith;
        fits = ground arith;
        root_width = ground arith;
        block = taken-IsBlock;
        disjoint = λ q iq. ground (arith, wf.disjoint q, distinct_free q);
        listed = λ q iq.
            let ty = tk.type q in
            let li = tk.linked q in ground (arith, wf.listed q, distinct_free q);
        busy = λ q iq ne.
            let ty = tk.type q ne in
            let b = wf.busy q (ground arith) in let z = wf.block q in ground (arith, b, z);
        chain = tk.chain;
        distinct = (dj, wf.distinct);
        first = ground arith;
        free_size = ground arith;
        alloc_size = ground arith;
        free_items = ground arith;
        alloc_items = ground arith;
        conserved = ground arith;
      }
