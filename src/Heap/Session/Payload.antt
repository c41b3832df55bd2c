-- ===== src/Heap/Session/Payload.antt =====
-- What a client may write into the blocks that it holds.
use msgcore.Prelude.{ℕ, ◌+◌, ◌≡◌, refl, ap, sym, true, false, ◌&&◌, List, has, arith, ltb, ◌∙◌}
use msgcore.Heap.{Block, Heap, sizenn}
use msgcore.Heap.Chain.{Chain-frame}
use msgcore.Heap.Chain.Totals.{total-frame}
use msgcore.Heap.WellFormed.{IsWellFormed, arena, starts}

-- No block starts among the bytes of another.
pub payload_apart :
    (h : Heap) (fl al : List ℕ)
    → IsWellFormed (arena h) fl al 0
    → (a : ℕ) → has a al ≡ true
    → (g : ℕ → Block)
    → ((q : ℕ) → (ltb a q && ltb q (a + (h.blocks a).size)) ≡ false → g q ≡ h.blocks q)
    → (q : ℕ) → starts fl al q ≡ true
    → g q ≡ h.blocks q
payload_apart h fl al wf a i g inside q s =
    let b = wf.block a (ground arith) in let ap = b.apart q s in inside q (ground arith)

in_free : (fl al : List ℕ) (q : ℕ) → has q fl ≡ true → starts fl al q ≡ true
in_free fl al q i = ground arith

in_used : (fl al : List ℕ) (q : ℕ) → has q al ≡ true → starts fl al q ≡ true
in_used fl al q i = ground arith

-- A heap whose blocks are as they were is as well-formed as it was, whatever else it holds.
pub Same-IsWellFormed :
    (h : Heap) (fl al : List ℕ)
    → IsWellFormed (arena h) fl al 0
    → (g : ℕ → Block) → ((q : ℕ) → starts fl al q ≡ true → g q ≡ h.blocks q)
    → IsWellFormed (arena (record h { blocks = g })) fl al 0
Same-IsWellFormed h fl al wf g same =
    let free = λ (q : ℕ) (iq : has q fl ≡ true). same q (in_free fl al q iq) in
    let used = λ (q : ℕ) (iq : has q al ≡ true). same q (in_used fl al q iq) in
    record {
      small = wf.small;
      fits = wf.fits;
      root_width = wf.root_width;
      block = λ q s.
          let d = wf.block q s in
          let e = same q s in
          record {
            beyond = d.beyond;
            inside = rw e d.inside;
            least = rw e d.least;
            width = rw e d.width;
            alloc = rw e d.alloc;
            exact = rw e d.exact;
            followed = rw e d.followed;
            apart = λ r sr lt. rw e (d.apart r sr lt);
          };
      disjoint = wf.disjoint;
      listed = λ q iq. rw (free q iq) (wf.listed q iq);
      busy = λ q iq ne. rw (used q iq) (wf.busy q iq ne);
      chain =
          Chain-frame h.blocks g 0 h.root.free h.root.free_last fl wf.chain
            (λ q iq. rw (free q iq) (refl, refl));
      distinct = wf.distinct;
      first = wf.first;
      free_size = wf.free_size ∙ sym (total-frame h.blocks g fl (λ q iq. ap sizenn (free q iq)));
      alloc_size = wf.alloc_size ∙ sym (total-frame h.blocks g al (λ q iq. ap sizenn (used q iq)));
      free_items = wf.free_items;
      alloc_items = wf.alloc_items;
      conserved =
          let f = total-frame h.blocks g fl (λ q iq. ap sizenn (free q iq)) in
          let u = total-frame h.blocks g al (λ q iq. ap sizenn (used q iq)) in
          rw (f, u) wf.conserved;
    }
