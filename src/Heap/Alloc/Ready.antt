-- ===== src/Heap/Alloc/Ready.antt =====
-- What a pass of `P2PmsgHeap_AllocIOMAGE` relies on, and what its parts leave of it for the rest.
use msgcore.Prelude.{ℕ, ◌+◌, ◌≤◌, ◌<◌, refl, List, ◌∷◌, length, arith}
use msgcore.Width.{vbheap_min, addr_limit}
use msgcore.Heap.{Heap}
use msgcore.Heap.Chain.Append.{append, length-append}
use msgcore.Heap.WellFormed.{IsWellFormed, arena}
use msgcore.Heap.Collate.{Honest}
use msgcore.Heap.Extend.Theorem.{Grows}
use msgcore.Heap.Sound.{Sound, Since}
use msgcore.Heap.Split.Theorem.{Hands}
use msgcore.Heap.Alloc.Walk.{Walks}

-- What a pass relies on; the list may be longer by one for each resize.
pub record Ready (h : Heap) (fl al : List ℕ) (max n resizes : ℕ) : Type 0 where
  pub well_formed : IsWellFormed (arena h) fl al 0
  pub honest : Honest h fl
  pub small : h.size_max < 0x8000_0000
  pub fits : h.size_max < addr_limit h.addr_type
  pub under : h.size_alloc ≤ h.size_max
  pub least : vbheap_min h.addr_type ≤ n
  pub few : length fl + 2 ≤ max + resizes

pub Walks-Ready :
    {h h' : Heap} {fl fl' al : List ℕ} {max n resizes : ℕ}
    → Ready h fl al max n resizes
    → Walks h h' fl fl' al
    → Ready h' fl' al max n resizes
Walks-Ready rd w =
    let im = w.image in
    let sm = im.size_max in
    let sa = im.size_alloc in
    let at = im.addr_type in
    record {
      well_formed = w.well_formed;
      honest = w.honest;
      small = rw sm rd.small;
      fits = rw (sm, at) rd.fits;
      under = rw (sm, sa) rd.under;
      least = rw at rd.least;
      few = let x = w.shorter in let y = rd.few in omega arith;
    }

pub Grows-Ready :
    {h h' : Heap} {fl al : List ℕ} {max n resizes x : ℕ}
    → Ready h fl al max n resizes
    → Grows h h' fl al x
    → h.size_alloc + x ≤ h.size_max
    → Ready h' (append fl h.size_alloc) al max n (resizes + 1)
Grows-Ready {h} {fl} rd g room =
    let sm = g.size_max in
    let sa = g.size_alloc in
    let at = g.addr_type in
    record {
      well_formed = g.well_formed;
      honest = g.honest rd.honest;
      small = rw sm rd.small;
      fits = rw (sm, at) rd.fits;
      under = rw (sm, sa) room;
      least = rw at rd.least;
      few = let x = length-append h.size_alloc fl in let y = rd.few in omega arith;
    }

pub Ready-Sound :
    {h : Heap} {fl al : List ℕ} {max n resizes : ℕ} → Ready h fl al max n resizes → Sound h fl al 0
Ready-Sound rd = record {
  well_formed = rd.well_formed;
  honest = rd.honest;
  small = rd.small;
  fits = rd.fits;
  under = rd.under;
}

pub Ready-recounted :
    {h : Heap} {fl al : List ℕ} {max n resizes : ℕ}
    → Ready h fl al max n resizes
    → (entries : ℕ) → Ready (record h { free_entries = entries }) fl al max n resizes
Ready-recounted rd entries = record {
  well_formed = rd.well_formed;
  honest = rd.honest;
  small = rd.small;
  fits = rd.fits;
  under = rd.under;
  least = rd.least;
  few = rd.few;
}

pub recounted :
    (h : Heap) (entries : ℕ) {al : List ℕ} → Since h (record h { free_entries = entries }) al
recounted h entries = record {
  untouched = λ q i. record { addr = refl; type = refl; alloc = refl; linked = refl; size = refl };
  addr_type = refl;
  size_used = refl;
  size_max = refl;
  vblock_min = refl;
}

pub Walks-Since : {h h' : Heap} {fl fl' al : List ℕ} → Walks h h' fl fl' al → Since h h' al
Walks-Since w =
    let im = w.image in
    record {
      untouched = w.untouched;
      addr_type = im.addr_type;
      size_used = im.size_used;
      size_max = im.size_max;
      vblock_min = im.vblock_min;
    }

pub Grows-Since : {h h' : Heap} {fl al : List ℕ} {x : ℕ} → Grows h h' fl al x → Since h h' al
Grows-Since g = record {
  untouched = g.untouched;
  addr_type = g.addr_type;
  size_used = g.size_used;
  size_max = g.size_max;
  vblock_min = g.vblock_min;
}

pub Hands-Since :
    {h h' : Heap} {fl al fl' : List ℕ} {a m : ℕ} → Hands h h' fl al fl' a m → Since h h' al
Hands-Since hd = record {
  untouched = hd.untouched;
  addr_type = hd.addr_type;
  size_used = hd.size_used;
  size_max = hd.size_max;
  vblock_min = hd.vblock_min;
}

pub Hands-Sound :
    {h h' : Heap} {fl al fl' : List ℕ} {a m max n resizes : ℕ}
    → Ready h fl al max n resizes
    → Hands h h' fl al fl' a m
    → Sound h' fl' (a ∷ al) a
Hands-Sound rd hd =
    let sm = hd.size_max in
    let sa = hd.size_alloc in
    let at = hd.addr_type in
    record {
      well_formed = hd.well_formed;
      honest = hd.honest rd.honest;
      small = rw sm rd.small;
      fits = rw (sm, at) rd.fits;
      under = rw (sm, sa) rd.under;
    }
