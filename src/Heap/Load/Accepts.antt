-- ===== src/Heap/Load/Accepts.antt =====
-- Which images are accepted, and what an accepted one is known to be.
use msgcore.Prelude.{
  ℕ, ◌+◌, ◌≤◌, ◌≡◌, ◌↔◌, refl, Bool, true, false, arith, ltb, Bool-cases, inl, inr, ap, sym, subst,
}
use msgcore.Width.{sizeof_root, vbheap_max, same_addr}
use msgcore.Sync.{is_iomage, iomage_form}
use msgcore.Heap.{Heap, Outcome, ok, throw, out_of_fuel}
use msgcore.Heap.Grow.{check_arena_width}
use msgcore.Heap.Load.{
  Image, Loaded, loaded, refused, undecided, verdict, verdicts, judge, handle, declared,
  declared_width, is_swapped, is_gen, create_loaded, load_image,
}

-- What the header and the root have to say of the buffer and of each other.
pub record Sound (i : Image) (len : ℕ) : Type 0 where
  pub holds : declared i ≤ len
  pub form : is_iomage i.sync₁ i.sync₂ ≡ true
  pub root_fits : 8 + sizeof_root (declared_width i) ≤ declared i
  pub width_reaches : declared i ≤ vbheap_max (declared_width i)
  pub same_width : same_addr i.root.addr (declared_width i) ≡ true

usable_form :
    (i : Image)
    → is_iomage i.sync₁ i.sync₂ ≡ true
    → let f = iomage_form i.sync₁ i.sync₂ in (is_swapped f ≡ false) × (is_gen f ≡ false)
unfolding is_iomage
usable_form i u = ground arith

loaded_inj : {h g : Heap} → loaded h ≡ loaded g → h ≡ g
loaded_inj e = cc

create_loaded-Sound : (i : Image) (len : ℕ) → Sound i len → create_loaded i ≡ loaded (handle i)
unfolding create_loaded check_arena_width
create_loaded-Sound i len s =
    let f = s.form in
    let r = s.root_fits in
    let w = s.width_reaches in let a = s.same_width in let u = usable_form i f in ground arith

create_loaded_only :
    (i : Image) (h : Heap)
    → create_loaded i ≡ loaded h
    → (is_iomage i.sync₁ i.sync₂ ≡ true)
      × (8 + sizeof_root (declared_width i) ≤ declared i)
      × (declared i ≤ vbheap_max (declared_width i))
      × (same_addr i.root.addr (declared_width i) ≡ true)
      × (handle i ≡ h)
unfolding create_loaded check_arena_width
create_loaded_only i h e = ground arith

verdict_only : (o : Outcome Bool) (h : Heap) → verdict o ≡ loaded h → o ≡ ok true h
verdict_only (ok true t) h e = ap (ok true) (loaded_inj e)
verdict_only (ok false t) h e = cc
verdict_only (throw x t) h e = cc
verdict_only out_of_fuel h e = cc

verdicts_only :
    (c : Loaded) (h : Heap)
    → verdicts c ≡ loaded h
    → (g : Heap) × (c ≡ loaded g) × (judge g ≡ ok true h)
verdicts_only (loaded g) h e = (g, refl, verdict_only (judge g) h e)
verdicts_only (refused r) h e = cc
verdicts_only undecided h e = cc

load_image-Sound :
    (i : Image) (len : ℕ) (h : Heap)
    → load_image i len ≡ loaded h
    → Sound i len × (judge (handle i) ≡ ok true h)
unfolding load_image
load_image-Sound i len h e = elim (Bool-cases (ltb len (declared i))) [
  | inl more ↦ absurd (ground arith)
  | inr fits ↦
      let v : verdicts (create_loaded i) ≡ loaded h = ground arith in
      let (g, c, j) = verdicts_only (create_loaded i) h v in
      let (f, r, w, a, eq) = create_loaded_only i g c in
      (
        record { holds = ground arith; form = f; root_fits = r; width_reaches = w; same_width = a },
        subst (λ g. judge g ≡ ok true h) (sym eq) j,
      )
]

load_image-loads :
    (i : Image) (len : ℕ) (h : Heap)
    → Sound i len × (judge (handle i) ≡ ok true h)
    → load_image i len ≡ loaded h
unfolding load_image
load_image-loads i len h (so, j) =
    let d = so.holds in
    let r = so.root_fits in
    let c = create_loaded-Sound i len so in
    let (sw, ge) = usable_form i so.form in
    let l : ltb len 8 ≡ false = ground arith in
    let m : ltb len (declared i) ≡ false = ground arith in rw (l, sw, m, c, j) refl

-- An image is accepted, and becomes a heap, exactly if its header and root are sound and the gate's
-- judgement of the heap they describe is that heap.
pub load_image_iff :
    (i : Image) (len : ℕ) (h : Heap)
    → (load_image i len ≡ loaded h) ↔ (Sound i len × (judge (handle i) ≡ ok true h))
load_image_iff i len h = (load_image-Sound i len h, load_image-loads i len h)
