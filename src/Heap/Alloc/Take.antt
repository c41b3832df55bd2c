-- ===== src/Heap/Alloc/Take.antt =====
-- Taking the block that the allocator has chosen.
use msgcore.Prelude.{
  ℕ, ◌+◌, ◌≤◌, ◌<◌, ◌≡◌, ◌⊎◌, ◌≢◌, refl, sym, subst, inl, inr, true, false, List, has, arith, ◌==◌,
  if◌then◌else◌, Bool-cases,
}
use msgcore.Width.{vbheap_min, addr_limit}
use msgcore.Root.{set_alloc}
use msgcore.Heap.{Block, Heap, ok, sizenn, bare, init_block}
use msgcore.Heap.Chain.{Chain-frame}
use msgcore.Heap.Chain.Totals.{total-frame}
use msgcore.Heap.WellFormed.{IsWellFormed, IsBlock, Arena, arena, starts}
use msgcore.Heap.FreeList.{split_alloc}
use msgcore.Heap.Split.Run.{init_block_lem}
use msgcore.Heap.Split.Theorem.{Hands, split_alloc-ok}
use msgcore.Heap.Alloc.{take_fit}

-- The header of the pending block is written again; only its type, linked bit and links may change.
pub record Rewrites (m n : Arena) (a : ℕ) : Type 0 where
  pub same : (q : ℕ) → q ≢ a → n.blocks q ≡ m.blocks q
  pub size : (n.blocks a).size ≡ (m.blocks a).size
  pub addr : (n.blocks a).addr ≡ (m.blocks a).addr
  pub alloc : (n.blocks a).alloc ≡ (m.blocks a).alloc
  pub keys : n.root ≡ record m.root { alloc = n.root.alloc }
  pub first : n.root.alloc < m.size_alloc
  pub addr_type : n.addr_type ≡ m.addr_type
  pub size_alloc : n.size_alloc ≡ m.size_alloc

module _ (m n : Arena) {fl al : List ℕ} (a : ℕ) (wf : IsWellFormed m fl al a) (i : has a al ≡ true)
    (rw' : Rewrites m n a) where
  out : has a fl ≡ false
  out = elim (Bool-cases (has a fl)) [
    | inl hit ↦ let d = wf.disjoint a hit in ground arith
    | inr miss ↦ miss
  ]

  sizes :
      (q : ℕ)
      → ((n.blocks q).size ≡ (m.blocks q).size)
        × ((n.blocks q).addr ≡ (m.blocks q).addr)
        × ((n.blocks q).alloc ≡ (m.blocks q).alloc)
  sizes q = elim (Bool-cases (q == a)) [
    | inl hit ↦
        let e : q ≡ a = ground arith in
        subst
          (λ q.
            ((n.blocks q).size ≡ (m.blocks q).size)
            × ((n.blocks q).addr ≡ (m.blocks q).addr)
            × ((n.blocks q).alloc ≡ (m.blocks q).alloc))
          (sym e) (rw'.size, rw'.addr, rw'.alloc)
    | inr miss ↦ let e = rw'.same q (ground arith) in rw e (refl, refl, refl)
  ]

  same_sizenn : (q : ℕ) → sizenn (n.blocks q) ≡ sizenn (m.blocks q)
  unfolding sizenn
  same_sizenn q = let (s, w, c) = sizes q in rw (s, w) refl

  rewritten-IsBlock : (q : ℕ) → starts fl al q ≡ true → IsBlock n fl al q
  rewritten-IsBlock q s =
      let d = wf.block q s in
      let (sz, ad, ac) = sizes q in
      let at = rw'.addr_type in
      let sa = rw'.size_alloc in
      let se = same_sizenn q in
      record {
        beyond = ground arith;
        inside = ground arith;
        least = ground arith;
        width = ground arith;
        alloc = ground arith;
        exact = ground arith;
        followed = rw (sz, sa) d.followed;
        apart = λ r sr lt. rw sz (d.apart r sr lt);
      }

  pub Rewrites-IsWellFormed : IsWellFormed n fl al a
  Rewrites-IsWellFormed =
      let at = rw'.addr_type in
      let sa = rw'.size_alloc in
      let k = rw'.keys in
      let o = out in
      let tf = total-frame m.blocks n.blocks fl (λ q iq. same_sizenn q) in
      let ta = total-frame m.blocks n.blocks al (λ q iq. same_sizenn q) in
      record {
        small = rw sa wf.small;
        fits = rw (sa, at) wf.fits;
        root_width = ground arith;
        block = rewritten-IsBlock;
        disjoint = wf.disjoint;
        listed = λ q iq. let e = rw'.same q (ground arith) in rw e (wf.listed q iq);
        busy = λ q iq ne. let e = rw'.same q ne in rw e (wf.busy q iq ne);
        chain = rw k (
            Chain-frame m.blocks n.blocks 0 m.root.free m.root.free_last fl wf.chain
              (λ q iq. let e = rw'.same q (ground arith) in rw e (refl, refl)));
        distinct = wf.distinct;
        first = rw sa rw'.first;
        free_size = ground arith;
        alloc_size = ground arith;
        free_items = ground arith;
        alloc_items = ground arith;
        conserved = ground arith;
      }

-- What taking `n` bytes of the block `r` ends in.
abbrev pub Taken : Heap → List ℕ → List ℕ → ℕ → ℕ → Type 0
Taken h fl al r n =
    (m : ℕ) × (h' : Heap) × (fl' : List ℕ) × (take_fit r n h ≡ ok (r, m) h')
    × (n ≤ m)
    × (m < n + vbheap_min h.addr_type)
    × Hands h h' fl al fl' r m

take_fit-run :
    (r n m : ℕ) (h h₁ : Heap) (g : ℕ → Block)
    → split_alloc r n h ≡ ok m h₁
    → init_block r (bare h₁.addr_type) m h₁ ≡ ok tt (record h₁ { blocks = g })
    → r < addr_limit h₁.root.addr
    → take_fit r n h
      ≡ ok
          (r, m)
          (record h₁ {
            blocks = g;
            root = record h₁.root { alloc = if h₁.root.alloc == 0 then r else h₁.root.alloc };
            dirty = true;
          })
unfolding take_fit set_alloc
take_fit-run r n m h h₁ g r₁ r₂ room = rw (r₁, r₂) (ground arith)

-- The bytes taken are those asked for, or a few more.
taken_sizes :
    (least size n m : ℕ)
    → 0 < least
    → n ≤ size
    → ((m ≡ n) × (n + least ≤ size)) ⊎ ((m ≡ size) × (size < n + least))
    → (n ≤ m) × (m < n + least)
taken_sizes least size n m pos le (inl (e, room)) = (omega arith, omega arith)
taken_sizes least size n m pos le (inr (e, short)) = (omega arith, omega arith)

pub take_fit-ok :
    (h : Heap) (fl al : List ℕ)
    → IsWellFormed (arena h) fl al 0
    → (r n : ℕ) → has r fl ≡ true
    → vbheap_min h.addr_type ≤ n
    → n ≤ (h.blocks r).size
    → Taken h fl al r n
take_fit-ok h fl al wf r n i front le =
    let (m, h₁, fl₁, run, sizes, hd) = split_alloc-ok h fl al wf r n i front le in
    let (nm, mn) =
      taken_sizes (vbheap_min h.addr_type) (h.blocks r).size n m (ground arith) le sizes in
    let wf₁ = hd.well_formed in
    let b = wf₁.block r (ground arith) in
    let wd = b.width in
    let ac = b.alloc in
    let fits = wf₁.fits in
    let sz = hd.size in
    let rwd = wf₁.root_width in
    let first = wf₁.first in
    let dj = wf.disjoint r i in
    let (g, init, at) = init_block_lem r (bare h₁.addr_type) m h₁ (ground arith) in
    let ar = at r in
    let root = record h₁.root { alloc = if h₁.root.alloc == 0 then r else h₁.root.alloc } in
    let h₂ = record h₁ { blocks = g; root = root; dirty = true } in
    (
      m,
      h₂,
      fl₁,
      take_fit-run r n m h h₁ g run init (ground arith),
      nm,
      mn,
      record {
        well_formed = Rewrites-IsWellFormed (arena h₁) (arena h₂) r wf₁ (ground arith) (record {
          same = λ q ne. let e = at q in ground arith;
          size = ground arith;
          addr = ground arith;
          alloc = ground arith;
          keys = refl;
          first = ground arith;
          addr_type = refl;
          size_alloc = refl;
        });
        honest = λ hon p fp. let e = at p in let hp = hd.honest hon p in ground arith;
        size = ground arith;
        untouched = λ q iq.
            let e = at q in
            let ne : (q == r) ≡ false = ground arith in
            let s = hd.untouched q iq in
            let sa = s.addr in
            let st = s.type in
            let sc = s.alloc in
            let sl = s.linked in
            let ss = s.size in
            record {
              addr = ground arith;
              type = ground arith;
              alloc = ground arith;
              linked = ground arith;
              size = ground arith;
            };
        addr_type = hd.addr_type;
        size_alloc = hd.size_alloc;
        size_used = hd.size_used;
        size_max = hd.size_max;
        vblock_min = hd.vblock_min;
      },
    )
