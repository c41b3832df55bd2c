-- ===== src/Heap/Push.antt =====
-- The invariant after an allocated block has been put at the head of the free list.
pub mod Run
use msgcore.Prelude.{
  if◌then◌else◌, subst, sym, ℕ, ◌+◌, ◌-◌, ◌≤◌, ◌<◌, ◌≡◌, ◌≢◌, refl, ap, ◌⊎◌, inl, inr, Bool, true,
  false, ◌||◌, ◌&&◌, not, List, [], ◌∷◌, has, length, arith, ◌==◌, Bool-cases,
}
use msgcore.Width.{AddrType, vbheap_min}
use msgcore.Heap.{Block, is_free, sizenn}
use msgcore.Heap.Chain.{
  Chain, total, remove, IsDistinct, has-remove, IsDistinct-remove, SameLinks, Chain-frame,
  Chain-not-null, Chain-last_mem,
}
use msgcore.Heap.Chain.Totals.{total-remove, length-remove, total-frame}
use msgcore.Heap.WellFormed.{IsWellFormed, IsBlock, Arena, starts}

-- `a` is free and linked, and the keys follow.
pub record Pushes (m n : Arena) (fl : List ℕ) (a : ℕ) : Type 0 where
  pub size : (q : ℕ) → (n.blocks q).size ≡ (m.blocks q).size
  pub addr : (q : ℕ) → (n.blocks q).addr ≡ (m.blocks q).addr
  pub alloc : (q : ℕ) → (n.blocks q).alloc ≡ (m.blocks q).alloc
  pub linked : (q : ℕ) → (n.blocks q).linked ≡ (m.blocks q).linked
  pub type : (q : ℕ) → q ≢ a → (n.blocks q).type ≡ (m.blocks q).type
  pub freed : ((n.blocks a).type ≡ 0) × ((m.blocks a).linked ≡ true)
  pub addr_type : n.addr_type ≡ m.addr_type
  pub size_alloc : n.size_alloc ≡ m.size_alloc
  pub root_width : n.root.addr ≡ m.root.addr
  pub chain : Chain n.blocks 0 n.root.free (a ∷ fl) n.root.free_last
  pub first : n.root.alloc ≡ m.root.alloc
  pub free_size : n.root.free_size ≡ m.root.free_size + (m.blocks a).size
  pub alloc_size : n.root.alloc_size ≡ m.root.alloc_size - (m.blocks a).size
  pub free_items : n.root.free_items ≡ m.root.free_items + 1
  pub alloc_items : n.root.alloc_items ≡ m.root.alloc_items - 1

module _ (m n : Arena) {fl al : List ℕ} (wf : IsWellFormed m fl al 0) (a : ℕ) (i : has a al ≡ true)
    (ps : Pushes m n fl a) where
  distinct_alloc : (q : ℕ) → has q (remove a al) ≡ (has q al && not (q == a))
  distinct_alloc q = has-remove a q al wf.distinct

  same_starts : (q : ℕ) → starts (a ∷ fl) (remove a al) q ≡ starts fl al q
  same_starts q = ground (arith, distinct_alloc q)

  same_sizenn : (q : ℕ) → sizenn (n.blocks q) ≡ sizenn (m.blocks q)
  unfolding sizenn
  same_sizenn q = rw (ps.size q, ps.addr q) refl

  pushed-IsBlock :
      (q : ℕ) → starts (a ∷ fl) (remove a al) q ≡ true → IsBlock n (a ∷ fl) (remove a al) q
  pushed-IsBlock q s =
      let d = wf.block q (ground (arith, same_starts q)) in
      let sz = ps.size q in
      let ad = ps.addr q in
      let ac = ps.alloc q in
      record {
        beyond = ground arith;
        inside = ground arith;
        least = ground arith;
        width = ground arith;
        alloc = ground arith;
        exact = ground (arith, same_sizenn q);
        followed =
            let there = ap (λ s. starts fl al (q + s)) sz in
            ground (arith, same_starts (q + (n.blocks q).size));
        apart = λ r sr lt. ground (arith, d.apart r, same_starts r);
      }

  total_free : total n.blocks (a ∷ fl) ≡ total m.blocks fl + (m.blocks a).size
  total_free =
      let b = wf.block a (ground arith) in
      let f = total-frame m.blocks n.blocks fl (λ q iq. same_sizenn q) in
      ground (arith, same_sizenn a)

  total_alloc : total n.blocks (remove a al) + (m.blocks a).size ≡ total m.blocks al
  total_alloc =
      let b = wf.block a (ground arith) in
      let ex = b.exact in
      let t = total-remove m.blocks a al i in
      let f = total-frame m.blocks n.blocks (remove a al) (λ q iq. same_sizenn q) in omega arith

  pub Pushes-IsWellFormed : IsWellFormed n (a ∷ fl) (remove a al) 0
  Pushes-IsWellFormed =
      let tf = total_free in
      let ta = total_alloc in
      let lr = length-remove a al i in
      let (ty, ln) = ps.freed in
      record {
        small = ground arith;
        fits = ground arith;
        root_width = ground arith;
        block = pushed-IsBlock;
        disjoint = λ q iq. ground (arith, wf.disjoint q, distinct_alloc q);
        listed = λ q iq. let t = ps.type q in let li = ps.linked q in ground (arith, wf.listed q);
        busy = λ q iq ne. let t = ps.type q in ground (arith, wf.busy q, distinct_alloc q);
        chain = ps.chain;
        distinct = IsDistinct-remove a al wf.distinct;
        first = let f = ps.first in let g = wf.first in ground arith;
        free_size = ground arith;
        alloc_size = ground arith;
        free_items = ground arith;
        alloc_items = ground arith;
        conserved = ground arith;
      }

-- A block in front of a doubly linked list.
pub Chain-push :
    (f g : ℕ → Block) (a c last : ℕ) (fl : List ℕ)
    → Chain f 0 c fl last
    → a ≢ 0
    → has a fl ≡ false
    → ((g a).prev ≡ 0) × ((g a).next ≡ c)
    → ((q : ℕ)
        → q ≢ a
        → ((g q).prev ≡ (if (q == c) && not (c == 0) then a else (f q).prev))
          × ((g q).next ≡ (f q).next))
    → Chain g 0 a (a ∷ fl) (if last == 0 then a else last)
Chain-push f g a c last [] (e, l) z o (p, n) at = (refl, z, refl, p, (ground arith, ground arith))
Chain-push f g a c last (x ∷ xs) ch z o (p, n) at =
    let (e, ne, out, back, rest) = ch in
    let nn = Chain-not-null f 0 c last (x ∷ xs) ch in
    let lm = Chain-last_mem f 0 c last x xs ch in
    let nl : last ≢ 0 = ground arith in
    let (xp, xn) = at x (ground arith) in
    let r =
      Chain-frame f g x (f x).next last xs rest
        (λ q iq. let (a', b') = at q (ground arith) in (ground arith, b')) in
    (
      refl,
      z,
      o,
      p,
      (
        ground arith,
        ne,
        out,
        ground arith,
        subst (λ y. Chain g x y xs (if last == 0 then a else last)) (sym xn)
            (subst (λ l. Chain g x (f x).next xs l) (ground arith) r),
      ),
    )
