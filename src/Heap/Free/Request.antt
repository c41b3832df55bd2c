-- ===== src/Heap/Free/Request.antt =====
-- `P2PmsgHeap_Free` on a sound IOMAGE heap.
use msgcore.Prelude.{ℕ, ◌+◌, ◌-◌, ◌%◌, ◌^◌, ◌≡◌, refl, Bool, true, List, has, arith}
use msgcore.Heap.{Heap, ok, sizenn, addr2phys, block_ptr}
use msgcore.Heap.Chain.{remove}
use msgcore.Heap.Collate.{SameHeader}
use msgcore.Heap.Sound.{Sound}
use msgcore.Heap.Free.{free, free_iomage}
use msgcore.Heap.Free.Theorem.{free_iomage-ok}

-- The handle no longer counts the block's bytes.
abbrev refunded : Heap → ℕ → Heap
refunded h a = record h { size_used = (h.size_used + 2 ^ 64 - sizenn (h.blocks a)) % 2 ^ 64 }

free-run :
    (gate : Bool) (a : ℕ) (h h' : Heap)
    → block_ptr a h ≡ ok (h.blocks a) h
    → free_iomage gate a (refunded h a) ≡ ok tt h'
    → free gate a h ≡ ok tt h'
unfolding free
free-run gate a h h' r₁ r₂ = rw (r₁, r₂) refl

-- What giving back `a` leaves.
pub record Releases (h h' : Heap) (fl fl' al : List ℕ) (a : ℕ) : Type 0 where
  pub sound : Sound h' fl' (remove a al) 0
  pub untouched : (q : ℕ) → has q (remove a al) ≡ true → SameHeader (h.blocks q) (h'.blocks q)
  pub size_used : h'.size_used ≡ (h.size_used + 2 ^ 64 - (h.blocks a).size) % 2 ^ 64
  pub size_alloc : h'.size_alloc ≡ h.size_alloc
  pub addr_type : h'.addr_type ≡ h.addr_type
  pub size_max : h'.size_max ≡ h.size_max
  pub vblock_min : h'.vblock_min ≡ h.vblock_min

pub free-ok :
    (gate : Bool) (h : Heap) (fl al : List ℕ)
    → Sound h fl al 0
    → (a : ℕ) → has a al ≡ true
    → (h.blocks a).linked ≡ true
    → (h' : Heap) × (fl' : List ℕ) × (free gate a h ≡ ok tt h') × Releases h h' fl fl' al a
unfolding addr2phys
free-ok gate h fl al so a i linked =
    let wf = so.well_formed in
    let b = wf.block a (ground arith) in
    let ptr : block_ptr a h ≡ ok (h.blocks a) h = ground arith in
    let (h', fl', run, re) =
      free_iomage-ok gate (refunded h a) fl al so.well_formed so.honest a i linked in
    let sm = re.size_max in
    let sa = re.size_alloc in
    let at = re.addr_type in
    (
      h',
      fl',
      free-run gate a h h' ptr run,
      record {
        sound = record {
          well_formed = re.well_formed;
          honest = re.honest;
          small = rw sm so.small;
          fits = rw (sm, at) so.fits;
          under = rw (sm, sa) so.under;
        };
        untouched = re.untouched;
        size_used = let su = re.size_used in let ex = b.exact in ground arith;
        size_alloc = sa;
        addr_type = at;
        size_max = sm;
        vblock_min = re.vblock_min;
      },
    )
