-- ===== src/Heap/Session.antt =====
-- A client of an IOMAGE heap: the calls of `P2PmsgHeap_Alloc` and `P2PmsgHeap_Free` (MsgVBHeap.cpp)
-- in any order, the writing of blocks, and the marking of a block as linked, which must come before
-- it is freed.
pub mod Created
pub mod Payload
use msgcore.Prelude.{
  ℕ, ◌+◌, ◌^◌, ◌≤◌, ◌<◌, ◌≡◌, ◌≢◌, refl, sym, ap, ◌&&◌, ◌∙◌, subst, ◌⊎◌, inl, inr, Bool, true,
  false, List, ◌∷◌, has, arith, update, ltb, Bool-cases,
}
use msgcore.Width.{vbheap_min, sizeof_hdr, sizeof_root}
use msgcore.Heap.Session.Payload.{payload_apart, Same-IsWellFormed}
use msgcore.Heap.FreeList.{is_free_header}
use msgcore.Heap.{Block, Foot, Heap, Error, ok, throw, is_free, sizenn}
use msgcore.Heap.Chain.{remove, total}
use msgcore.Heap.Chain.Totals.{total-remove, total-frame}
use msgcore.Heap.WellFormed.{arena}
use msgcore.Heap.Collate.{SameHeader}
use msgcore.Heap.Alloc.{alloc}
use msgcore.Heap.Alloc.Take.{Rewrites-IsWellFormed}
use msgcore.Heap.Alloc.Request.{alloc-ok, settled}
use msgcore.Heap.Free.{free}
use msgcore.Heap.Free.Request.{free-ok}
use msgcore.Heap.Sound.{Sound}

-- The block's linked bit is set.
abbrev pub marked : Heap → ℕ → Heap
marked h a = record h { blocks = update h.blocks a (record (h.blocks a) { linked = true }) }

-- The heap with other bytes in it, as they would be read at each offset.
abbrev pub filled : Heap → (ℕ → Block) → (ℕ → Foot) → Heap
filled h g x = record h { blocks = g; feet = x }

-- One step, between two heaps and the blocks that the client holds. Only a block that it holds is
-- marked, written or freed, and only a marked one is freed. What it writes leaves
-- the block's header, may read as any boundary tag, and does not read as the header of a free block.
pub data Serves : Heap → List ℕ → Heap → List ℕ → Type 0 where
  allocates :
      {h h' : Heap} {al : List ℕ} {r : ℕ} (gate : Bool) (type n : ℕ)
      → type ≢ 0
      → n + sizeof_hdr h.addr_type < 2 ^ 64
      → alloc gate type n h ≡ ok r h'
      → Serves h al h' (r ∷ al)
  refuses :
      {h h' : Heap} {al : List ℕ} {e : Error} (gate : Bool) (type n : ℕ)
      → type ≢ 0
      → n + sizeof_hdr h.addr_type < 2 ^ 64
      → alloc gate type n h ≡ throw e h'
      → Serves h al h' al
  links : {h : Heap} {al : List ℕ} (a : ℕ) → has a al ≡ true → Serves h al (marked h a) al
  writes :
      {h : Heap} {al : List ℕ} (a : ℕ) (g : ℕ → Block) (x : ℕ → Foot)
      → has a al ≡ true
      → ((q : ℕ) → (ltb a q && ltb q (a + (h.blocks a).size)) ≡ false → g q ≡ h.blocks q)
      → ((q : ℕ) → is_free_header (filled h g x) q ≡ true → is_free_header h q ≡ true)
      → Serves h al (filled h g x) al
  frees :
      {h h' : Heap} {al : List ℕ} (gate : Bool) (a : ℕ)
      → has a al ≡ true
      → (h.blocks a).linked ≡ true
      → free gate a h ≡ ok tt h'
      → Serves h al h' (remove a al)

pub data Session (h : Heap) (al : List ℕ) : Heap → List ℕ → Type 0 where
  start : Session h al h al
  next :
      {h₁ h₂ : Heap} {al₁ al₂ : List ℕ}
      → Session h al h₁ al₁
      → Serves h₁ al₁ h₂ al₂
      → Session h al h₂ al₂

-- The heap is sound for some free list, and the handle counts the bytes of the blocks held.
pub record Holds (h : Heap) (al : List ℕ) : Type 0 where
  pub free_list : List ℕ
  pub sound : Sound h free_list al 0
  pub least : vbheap_min h.addr_type ≤ h.vblock_min
  pub counted : h.size_used ≡ total h.blocks al

ok-injective : {A : Type 0} {a b : A} {h k : Heap} → ok a h ≡ ok b k → (a ≡ b) × (h ≡ k)
ok-injective e = (cc, cc)

same_size : (b c : Block) → c.addr ≡ b.addr → c.size ≡ b.size → sizenn c ≡ sizenn b
unfolding sizenn
same_size b c a n = rw (a, n) refl

SameHeader-sizenn : {b c : Block} → SameHeader b c → sizenn c ≡ sizenn b
SameHeader-sizenn {b} {c} s = same_size b c s.addr s.size

module _ {h : Heap} {al : List ℕ} (ho : Holds h al) where
  allocates-Holds :
      {h' : Heap} {r : ℕ} (gate : Bool) (type n : ℕ)
      → type ≢ 0
      → n + sizeof_hdr h.addr_type < 2 ^ 64
      → alloc gate type n h ≡ ok r h'
      → Holds h' (r ∷ al)
  allocates-Holds {r = r} gate type n typ lt run =
      elim (alloc-ok gate type n h ho.free_list al ho.sound ho.least typ lt) [
        | inl (s, k, fl', run', room, ty, new, so, ch) ↦
            let (e, d) = ok-injective (sym run' ∙ run) in
            let wf = so.well_formed in
            let b = wf.block s (ground arith) in
            let ex = b.exact in
            let frame =
              total-frame h.blocks k.blocks al (λ q i. SameHeader-sizenn (ch.untouched q i)) in
            let held : Holds k (s ∷ al) = record {
              free_list = fl';
              sound = so;
              least =
                  let m = ho.least in
                  let at = ch.addr_type in let vm = ch.vblock_min in ground arith;
              counted =
                  let su = ch.size_used in
                  let co = wf.conserved in let sm = wf.small in let ct = ho.counted in ground arith;
            } in
            subst (λ h. Holds h (r ∷ al)) d (subst (λ r. Holds k (r ∷ al)) e held)
        | inr (er, k, fl', run', why, so, si) ↦ absurd cc
      ]

  refuses-Holds :
      {h' : Heap} {e : Error} (gate : Bool) (type n : ℕ)
      → type ≢ 0
      → n + sizeof_hdr h.addr_type < 2 ^ 64
      → alloc gate type n h ≡ throw e h'
      → Holds h' al
  refuses-Holds {h'} gate type n typ lt run =
      elim (alloc-ok gate type n h ho.free_list al ho.sound ho.least typ lt) [
        | inl (s, k, fl', run', room, ty, new, so, ch) ↦ absurd cc
        | inr (er, k, fl', run', why, so, si) ↦
            let d : k ≡ h' = cc in
            let frame =
              total-frame h.blocks k.blocks al (λ q i. SameHeader-sizenn (si.untouched q i)) in
            let held : Holds k al = record {
              free_list = fl';
              sound = so;
              least =
                  let m = ho.least in
                  let at = si.addr_type in let vm = si.vblock_min in ground arith;
              counted = let su = si.size_used in let ct = ho.counted in ground arith;
            } in
            subst (λ h. Holds h al) d held
      ]

  frees-Holds :
      {h' : Heap} (gate : Bool) (a : ℕ)
      → has a al ≡ true
      → (h.blocks a).linked ≡ true
      → free gate a h ≡ ok tt h'
      → Holds h' (remove a al)
  frees-Holds gate a i linked run =
      let so = ho.sound in
      let wf = so.well_formed in
      let b = wf.block a (ground arith) in
      let ex = b.exact in
      let (k, fl', run', re) = free-ok gate h ho.free_list al so a i linked in
      let (e, d) = ok-injective (sym run' ∙ run) in
      let out = total-remove h.blocks a al i in
      let frame =
        total-frame h.blocks k.blocks (remove a al) (λ q i. SameHeader-sizenn (re.untouched q i)) in
      let held : Holds k (remove a al) = record {
        free_list = fl';
        sound = re.sound;
        least = let m = ho.least in let at = re.addr_type in let vm = re.vblock_min in ground arith;
        counted =
            let su = re.size_used in
            let co = wf.conserved in let sm = wf.small in let ct = ho.counted in ground arith;
      } in
      subst (λ h. Holds h (remove a al)) d held

  links-Holds : (a : ℕ) → has a al ≡ true → Holds (marked h a) al
  links-Holds a i =
      let so = ho.sound in
      let wf = so.well_formed in
      let b = wf.block a (ground arith) in
      let nz : has 0 al ≡ true → is_free (h.blocks 0) ≡ false =
        λ z. absurd (let c = wf.block 0 (ground arith) in ground arith) in
      let busy = wf.busy a i (ground arith) in
      let wf₁ = settled 0 a h ho.free_list al wf nz in
      let wf₂ = Rewrites-IsWellFormed (arena h) (arena (marked h a)) a wf₁ i (record {
        same = λ q ne. ground arith;
        size = ground arith;
        addr = ground arith;
        alloc = ground arith;
        keys = refl;
        first = wf.first;
        addr_type = refl;
        size_alloc = refl;
      }) in
      let frame =
        total-frame h.blocks (marked h a).blocks al
          (λ q iq. same_size (h.blocks q) ((marked h a).blocks q) (ground arith) (ground arith)) in
      record {
        free_list = ho.free_list;
        sound = record {
          well_formed = settled a 0 (marked h a) ho.free_list al wf₂ (λ j. ground arith);
          honest = λ p fp. let hp = so.honest p in ground arith;
          small = so.small;
          fits = so.fits;
          under = so.under;
        };
        least = ho.least;
        counted = let ct = ho.counted in ground arith;
      }

  writes-Holds :
      (a : ℕ) (g : ℕ → Block) (x : ℕ → Foot)
      → has a al ≡ true
      → ((q : ℕ) → (ltb a q && ltb q (a + (h.blocks a).size)) ≡ false → g q ≡ h.blocks q)
      → ((q : ℕ) → is_free_header (filled h g x) q ≡ true → is_free_header h q ≡ true)
      → Holds (filled h g x) al
  writes-Holds a g x i inside forged =
      let so = ho.sound in
      let same = payload_apart h ho.free_list al so.well_formed a i g inside in
      record {
        free_list = ho.free_list;
        sound = record {
          well_formed = Same-IsWellFormed h ho.free_list al so.well_formed g same;
          honest = λ p fp. so.honest p (forged p fp);
          small = so.small;
          fits = so.fits;
          under = so.under;
        };
        least = ho.least;
        counted =
            ho.counted
            ∙ sym (total-frame h.blocks g al (λ q iq. ap sizenn (same q (ground arith))));
      }

Serves-Holds : {h h' : Heap} {al al' : List ℕ} → Serves h al h' al' → Holds h al → Holds h' al'
Serves-Holds (allocates gate type n typ lt run) ho = allocates-Holds ho gate type n typ lt run
Serves-Holds (refuses gate type n typ lt run) ho = refuses-Holds ho gate type n typ lt run
Serves-Holds (links a i) ho = links-Holds ho a i
Serves-Holds (writes a g x i inside forged) ho = writes-Holds ho a g x i inside forged
Serves-Holds (frees gate a i linked run) ho = frees-Holds ho gate a i linked run

Session-Holds :
    {h : Heap} {al : List ℕ} {h' : Heap} {al' : List ℕ}
    → Session h al h' al'
    → Holds h al
    → Holds h' al'
Session-Holds start ho = ho
Session-Holds (next s t) ho = Serves-Holds t (Session-Holds s ho)

-- The blocks that a client holds lie inside the image, behind the root, and apart from each other;
-- the handle counts their bytes, and the image is under its maximum.
pub record Live (h : Heap) (al : List ℕ) : Type 0 where
  pub inside :
      (p : ℕ)
      → has p al ≡ true
      → (8 + sizeof_root h.addr_type ≤ p) × (p + (h.blocks p).size ≤ h.size_alloc)
  pub apart :
      (p q : ℕ)
      → has p al ≡ true
      → has q al ≡ true
      → p ≢ q
      → (p + (h.blocks p).size ≤ q) ⊎ (q + (h.blocks q).size ≤ p)
  pub counted : h.size_used ≡ total h.blocks al
  pub under : h.size_alloc ≤ h.size_max

Holds-Live : {h : Heap} {al : List ℕ} → Holds h al → Live h al
Holds-Live {h} {al} ho =
    let so = ho.sound in
    let wf = so.well_formed in
    record {
      inside = λ p i. let b = wf.block p (ground arith) in (b.beyond, b.inside);
      apart = λ p q i j ne.
          let b = wf.block p (ground arith) in
          let c = wf.block q (ground arith) in
          elim (Bool-cases (ltb p q)) [
            | inl lt ↦ inl (b.apart q (ground arith) (ground arith))
            | inr ge ↦ inr (c.apart p (ground arith) (ground arith))
          ];
      counted = ho.counted;
      under = so.under;
    }

-- Whatever a client of a sound heap, whose count of used bytes is that of the blocks held, asks for,
-- marks, writes and gives back, in any order, and whether its requests are met or refused: the blocks that it
-- holds then lie inside the image, behind the root, and do not overlap, the handle counts just their
-- bytes, and the image has not grown past its maximum.
pub Session-Live :
    {h : Heap} {al : List ℕ} {h' : Heap} {al' : List ℕ}
    → Session h al h' al'
    → Holds h al
    → Live h' al'
Session-Live s ho = Holds-Live (Session-Holds s ho)
