-- ===== src/Heap/Alloc/Request.antt =====
-- `P2PmsgHeap_Alloc` on a well-formed IOMAGE heap.
use msgcore.Prelude.{
  ℕ, ◌+◌, ◌%◌, ◌^◌, ◌≤◌, ◌<◌, ◌≡◌, ◌≢◌, refl, sym, subst, ◌⊎◌, inl, inr, Bool, true, false, List,
  ◌∷◌, has, arith, update, ltb, ◌==◌, if◌then◌else◌, Bool-cases,
}
use msgcore.Width.{AddrType, addr08, addr16, addr32, addr64, vbheap_min, sizeof_hdr, addr_limit}
use msgcore.Root.{key_limit}
use msgcore.Heap.{
  Block, Heap, Error, Outcome, ok, throw, exceeds_max, resizes_exhausted, is_free, addr2phys,
  block_ptr,
}
use msgcore.Heap.WellFormed.{IsWellFormed, arena}
use msgcore.Heap.Collate.{Honest, SameHeader}
use msgcore.Heap.Sound.{Sound, Since, Since-trans}
use msgcore.Heap.Alloc.{alloc, alloc_iomage, vblock_init, block_request}
use msgcore.Heap.Alloc.Take.{Rewrites-IsWellFormed}
use msgcore.Heap.Alloc.Pass.{alloc_iomage-ok}

-- Another block may be the one without a type, once the one before has its own.
pub settled :
    (m p : ℕ) (h : Heap) (fl al : List ℕ)
    → IsWellFormed (arena h) fl al m
    → (has m al ≡ true → is_free (h.blocks m) ≡ false)
    → IsWellFormed (arena h) fl al p
settled m p h fl al wf typed = record {
  small = wf.small;
  fits = wf.fits;
  root_width = wf.root_width;
  block = wf.block;
  disjoint = wf.disjoint;
  listed = wf.listed;
  busy = λ q iq ne. elim (Bool-cases (q == m)) [
    | inl hit ↦
        let e : q ≡ m = ground arith in
        subst (λ q. is_free (h.blocks q) ≡ false) (sym e) (typed (ground arith))
    | inr miss ↦ wf.busy q iq (ground arith)
  ];
  chain = wf.chain;
  distinct = wf.distinct;
  first = wf.first;
  free_size = wf.free_size;
  alloc_size = wf.alloc_size;
  free_items = wf.free_items;
  alloc_items = wf.alloc_items;
  conserved = wf.conserved;
}

key_room : (w : AddrType) (n : ℕ) → n < addr_limit w → n < 0x8000_0000 → n < key_limit w
key_room addr08 n a b = ground arith
key_room addr16 n a b = ground arith
key_room addr32 n a b = ground arith
key_room addr64 n a b = ground arith

-- The header that `VBLock_Init` leaves.
abbrev typed : Block → AddrType → ℕ → ℕ → Block
typed b w type n = record b { addr = w; type = type; alloc = true; linked = false; size = n }

vblock_init-run :
    (a : ℕ) (w : AddrType) (type n : ℕ) (h : Heap)
    → n < key_limit w
    → (g : ℕ → Block) × (vblock_init a w type n h ≡ ok tt (record h { blocks = g }))
      × ((q : ℕ) → g q ≡ (if q == a then typed (h.blocks a) w type n else h.blocks q))
unfolding vblock_init
vblock_init-run a w type n h lt =
    let f = h.blocks in
    let f₁ = update f a (record (f a) { addr = w; type = type; alloc = true; linked = false }) in
    (update f₁ a (record (f₁ a) { size = n }), ground arith, λ q. ground arith)

-- The size that the handle counts once a block of `m` bytes is allocated.
abbrev charged : Heap → ℕ → Heap
charged h m = record h { size_used = (h.size_used + m) % 2 ^ 64 }

alloc-run :
    (gate : Bool) (type n r m : ℕ) (h h₁ : Heap) (g : ℕ → Block)
    → ltb h.size_max ((h.size_used + block_request h n) % 2 ^ 64) ≡ false
    → alloc_iomage gate (block_request h n) (record h { dirty = true }) ≡ ok (r, m) h₁
    → block_ptr r (charged h₁ m) ≡ ok (h₁.blocks r) (charged h₁ m)
    → vblock_init r h₁.addr_type type m (charged h₁ m)
      ≡ ok tt (record (charged h₁ m) { blocks = g })
    → alloc gate type n h ≡ ok r (record (charged h₁ m) { blocks = g })
unfolding alloc
alloc-run gate type n r m h h₁ g under r₁ r₂ r₃ = rw (under, r₁, r₂, r₃) refl

block_ptr-found : (a : ℕ) (h : Heap) → a ≢ 0 → a ≤ h.size_alloc → block_ptr a h ≡ ok (h.blocks a) h
unfolding addr2phys
block_ptr-found a h nz le = ground arith

alloc-over :
    (gate : Bool) (type n : ℕ) (h : Heap)
    → ltb h.size_max ((h.size_used + block_request h n) % 2 ^ 64) ≡ true
    → alloc gate type n h ≡ throw exceeds_max (record h { dirty = true })
unfolding alloc
alloc-over gate type n h over = rw over refl

alloc-throw :
    (gate : Bool) (type n : ℕ) (e : Error) (h h₁ : Heap)
    → ltb h.size_max ((h.size_used + block_request h n) % 2 ^ 64) ≡ false
    → alloc_iomage gate (block_request h n) (record h { dirty = true }) ≡ throw e h₁
    → alloc gate type n h ≡ throw e h₁
unfolding alloc
alloc-throw gate type n e h h₁ under r = rw (under, r) refl

-- The blocks `al` keep their headers, the handle its limits, and `m` bytes are added to its count.
pub record Charged (h h' : Heap) (al : List ℕ) (m : ℕ) : Type 0 where
  pub untouched : (q : ℕ) → has q al ≡ true → SameHeader (h.blocks q) (h'.blocks q)
  pub addr_type : h'.addr_type ≡ h.addr_type
  pub size_used : h'.size_used ≡ (h.size_used + m) % 2 ^ 64
  pub size_max : h'.size_max ≡ h.size_max
  pub vblock_min : h'.vblock_min ≡ h.vblock_min

-- How a request for `n` bytes of payload ends: in a block of that type with room for them, which
-- joins the allocated ones, or in one of two throws.
abbrev pub Grants : (Heap → Outcome ℕ) → Heap → List ℕ → ℕ → ℕ → Type 0
Grants run h al type n =
    ((r : ℕ) × (h' : Heap) × (fl' : List ℕ) × (run h ≡ ok r h')
      × (n + sizeof_hdr h.addr_type ≤ (h'.blocks r).size)
      × ((h'.blocks r).type ≡ type)
      × (has r al ≡ false)
      × Sound h' fl' (r ∷ al) 0
      × Charged h h' al (h'.blocks r).size)
    ⊎ ((e : Error) × (h' : Heap) × (fl' : List ℕ) × (run h ≡ throw e h')
        × ((e ≡ exceeds_max) ⊎ (e ≡ resizes_exhausted))
        × Sound h' fl' al 0
        × Since h h' al)

dirty-Honest : (h : Heap) (fl : List ℕ) → Honest h fl → Honest (record h { dirty = true }) fl
dirty-Honest h fl hon = hon

-- What the block that was found becomes.
module _ (gate : Bool) (type n : ℕ) (h : Heap) (al : List ℕ) (typ : type ≢ 0)
    (small : n + sizeof_hdr h.addr_type < 2 ^ 64)
    (under : ltb h.size_max ((h.size_used + block_request h n) % 2 ^ 64) ≡ false) where
  granted :
      (r m : ℕ) (h₁ : Heap) (fl₁ : List ℕ)
      → alloc_iomage gate (block_request h n) (record h { dirty = true }) ≡ ok (r, m) h₁
      → block_request h n ≤ m
      → has r al ≡ false
      → Sound h₁ fl₁ (r ∷ al) r
      → (h₁.blocks r).size ≡ m
      → Since h h₁ al
      → Grants (alloc gate type n) h al type n
  granted r m h₁ fl₁ run le new so size since =
      let wf = so.well_formed in
      let b = wf.block r (ground arith) in
      let small₁ = wf.small in
      let fits = wf.fits in
      let room = key_room h₁.addr_type m (ground arith) (ground arith) in
      let (g, init, at) = vblock_init-run r h₁.addr_type type m (charged h₁ m) room in
      let ar = at r in
      let wd = b.width in
      let ac = b.alloc in
      let first = wf.first in
      let h₂ = record (charged h₁ m) { blocks = g } in
      let wf₂ = Rewrites-IsWellFormed (arena h₁) (arena h₂) r wf (ground arith) (record {
        same = λ q ne. let e = at q in ground arith;
        size = ground arith;
        addr = ground arith;
        alloc = ground arith;
        keys = refl;
        first = ground arith;
        addr_type = refl;
        size_alloc = refl;
      }) in
      inl (
        r,
        h₂,
        fl₁,
        alloc-run gate type n r m h h₁ g under run
            (block_ptr-found r (charged h₁ m) (ground arith) (ground arith)) init,
        ground arith,
        ground arith,
        new,
        record {
          well_formed = settled r 0 h₂ fl₁ (r ∷ al) wf₂ (λ i. ground arith);
          honest = λ p fp. let e = at p in let hp = so.honest p in ground arith;
          small = so.small;
          fits = so.fits;
          under = so.under;
        },
        record {
          untouched = λ q iq.
              let e = at q in
              let ne : (q == r) ≡ false = ground arith in
              let s = since.untouched q iq in rw (e, ne) s;
          addr_type = since.addr_type;
          size_used = let su = since.size_used in ground arith;
          size_max = since.size_max;
          vblock_min = since.vblock_min;
        },
      )

dirtied : (h : Heap) (al : List ℕ) → Since h (record h { dirty = true }) al
dirtied h al = record {
  untouched = λ q i. record { addr = refl; type = refl; alloc = refl; linked = refl; size = refl };
  addr_type = refl;
  size_used = refl;
  size_max = refl;
  vblock_min = refl;
}

pub alloc-ok :
    (gate : Bool) (type n : ℕ) (h : Heap) (fl al : List ℕ)
    → Sound h fl al 0
    → vbheap_min h.addr_type ≤ h.vblock_min
    → type ≢ 0
    → n + sizeof_hdr h.addr_type < 2 ^ 64
    → Grants (alloc gate type n) h al type n
alloc-ok gate type n h fl al so least typ lt =
    let so₁ : Sound (record h { dirty = true }) fl al 0 = record {
      well_formed = so.well_formed;
      honest = dirty-Honest h fl so.honest;
      small = so.small;
      fits = so.fits;
      under = so.under;
    } in
    elim (Bool-cases (ltb h.size_max ((h.size_used + block_request h n) % 2 ^ 64))) [
      | inl over ↦ inr (
        exceeds_max,
        record h { dirty = true },
        fl,
        alloc-over gate type n h over,
        inl refl,
        so₁,
        dirtied h al,
      )
      | inr under ↦
          elim (alloc_iomage-ok gate (block_request h n) (record h { dirty = true }) fl al
            so₁.well_formed so₁.honest so₁.small so₁.fits so₁.under (ground arith)) [
              | inl (r, m, h₁, fl₁, run, le, new, so₂, size, since) ↦
                  granted gate type n h al typ lt under r m h₁ fl₁ run le new so₂ size
                    (Since-trans (dirtied h al) since)
              | inr (e, h₁, fl₁, run, why, so₂, since) ↦ inr (
                e,
                h₁,
                fl₁,
                alloc-throw gate type n e h h₁ under run,
                why,
                so₂,
                Since-trans (dirtied h al) since,
              )
            ]
    ]
