-- ===== src/Heap/Load/Gate.antt =====
-- Inside the untrusted gate the judgement always ends, and writes nothing into the image.
use msgcore.Prelude.{
  ℕ, zero, suc, ◌+◌, ◌<◌, ◌≡◌, ◌≢◌, refl, Bool, true, false, ◌||◌, ◌&&◌, not, Option, none, some,
  arith, leb, ltb, ◌==◌, Bool-cases, inl, inr, ap,
}
use msgcore.Root.{Root, get_items}
use msgcore.Root
use msgcore.Heap.{
  Heap, Outcome, M, ok, throw, out_of_fuel, ◌>>=◌, ◌>>◌, sizenn, pure, get, modify, when, branch,
  with_root, max_blocks,
}
use msgcore.Heap.Validate.{
  Tally, Count, valid_iomage, valid_vblocks, valid_alloc, block_walk, tally_block, free_walk,
  block_fits, diag, diag_root, tallies, correct_root,
}
use msgcore.Heap.Load.{
  judge, Loaded, loaded, refused, undecided, verdict, verdicts, load_image, create_loaded, Image,
}

-- The command gives a value, and the heap is as it was.
abbrev pub Leaves : {A : Type 0} → Outcome A → Heap → Type 0
Leaves (ok a t) h = t ≡ h
Leaves _ h = ⊥

-- The same up to the handle's count of free blocks, which is no part of the image.
abbrev pub Recounts : {A : Type 0} → Outcome A → Heap → Type 0
Recounts (ok a t) h = t ≡ record h { free_entries = t.free_entries }
Recounts _ h = ⊥

pub valid_alloc-Leaves : (a : ℕ) (h : Heap) → Leaves (valid_alloc true true a h) h
unfolding valid_alloc
valid_alloc-Leaves a h = ground arith

pub tally_block-Leaves : (a : ℕ) (t : Tally) (h : Heap) → Leaves (tally_block true a t h) h
unfolding tally_block valid_alloc
tally_block-Leaves a t h = ground arith

recount :
    (h : Heap) (c : Option Count)
    → Recounts
        (elim c [
          | none ↦ pure false h
          | some c ↦
              (do
                when
                    (not (c.size == h.root.free_size) && not true)
                    (with_root (λ r. Root.set_free_size r c.size true))
                modify (λ h. record h { free_entries = c.entries })
                when
                    (not (get_items h.root.addr h.root.free_items == c.entries) && not true)
                    (with_root (λ r. Root.set_free_items r c.entries true))
                pure (
                    diag true
                      (get_items h.root.addr h.root.free_items == c.entries)
                      (diag true (c.size == h.root.free_size) c.result)))
                h
        ])
        h
recount h none = refl
recount h (some c) = ground arith

verdict-Leaves :
    (h : Heap) (o : Option Tally)
    → let m : M Bool = elim o [
      | none ↦ pure false
      | some t ↦ do
        r ← get (λ h. h.root)
        branch true (pure (t.result && tallies r t)) (do correct_root t; pure t.result)
    ] in
      Leaves (m h) h
verdict-Leaves h none = refl
verdict-Leaves h (some t) = refl

pub valid_iomage-Recounts : (h : Heap) → Recounts (valid_iomage true h) h
unfolding valid_iomage
valid_iomage-Recounts h = recount h (
    free_walk (max_blocks h) true h
      (record { entries = 0; size = 0; result = diag_root true h.root }) h.root.free)

pub Leaves-value : {A : Type 0} (m : Outcome A) (h : Heap) → Leaves m h → (a : A) × (m ≡ ok a h)
Leaves-value (ok a t) h e = (a, ap (ok a) e)
Leaves-value (throw e t) h l = absurd l
Leaves-value out_of_fuel h l = absurd l

pub Recounts-value :
    {A : Type 0} (m : Outcome A) (h : Heap)
    → Recounts m h
    → (a : A) × (n : ℕ) × (m ≡ ok a (record h { free_entries = n }))
Recounts-value (ok a t) h e = (a, t.free_entries, ap (ok a) e)
Recounts-value (throw e t) h l = absurd l
Recounts-value out_of_fuel h l = absurd l

pub block_walk-Leaves :
    (fuel a : ℕ) (t : Tally) (h : Heap)
    → 0 < fuel
    → h.size_alloc < a + fuel
    → Leaves (block_walk fuel true a t h) h
unfolding block_walk
block_walk-Leaves zero a t h p f = absurd (omega arith)
block_walk-Leaves (suc fuel) a t h p f = elim (Bool-cases (leb h.size_alloc a)) [
  | inl past ↦ rw past refl
  | inr within ↦ elim (Bool-cases (block_fits h a)) [
    | inr not_fit ↦ rw (within, not_fit) refl
    | inl fit ↦
        let (t', e) = Leaves-value (tally_block true a t h) h (tally_block-Leaves a t h) in
        let step = sizenn (h.blocks a) in
        let stop = (not t'.result && true) || (step == 0) || ltb h.size_alloc step in
        elim (Bool-cases stop) [
          | inl done ↦ rw (within, fit, e, done) refl
          | inr go ↦
              rw (within, fit, e, go)
                (block_walk-Leaves fuel (a + step) t' h (ground arith) (ground arith))
        ]
  ]
]

pub valid_vblocks-Leaves : (h : Heap) → Leaves (valid_vblocks true h) h
unfolding valid_vblocks
valid_vblocks-Leaves h =
    let t₀ : Tally = record {
      free_entries = 0;
      free_size = 0;
      alloc_entries = 0;
      alloc_size = 0;
      result = diag true (ltb h.root.free_size 200_000_000) true;
    } in
    let walk =
      Leaves-value (block_walk (h.size_alloc + 1) true (8 + h.root.size) t₀ h) h
        (block_walk-Leaves (h.size_alloc + 1) (8 + h.root.size) t₀ h (omega arith) (omega arith)) in
    rw walk.1 (verdict-Leaves h walk.0)

pub judge-Recounts : (h : Heap) → Recounts (judge h) h
unfolding judge
judge-Recounts h =
    let (b, n, e) = Recounts-value (valid_iomage true h) h (valid_iomage-Recounts h) in
    let g : Heap = record h { free_entries = n } in
    let (b', e') = Leaves-value (valid_vblocks true g) g (valid_vblocks-Leaves g) in
    let (b'', e'') =
      Leaves-value (valid_alloc true true h.root.alloc g) g (valid_alloc-Leaves h.root.alloc g) in
    elim (Bool-cases b) [
      | inr no_list ↦ rw (e, no_list) refl
      | inl list ↦ elim (Bool-cases b') [
        | inr no_blocks ↦ rw (e, list, e', no_blocks) refl
        | inl blocks ↦ elim (Bool-cases (h.root.alloc == 0)) [
          | inl empty ↦ rw (e, list, e', blocks, empty) refl
          | inr some_block ↦ rw (e, list, e', blocks, some_block, e'') refl
        ]
      ]
    ]

verdict-decides : (o : Outcome Bool) (h : Heap) → Recounts o h → verdict o ≢ undecided
verdict-decides (ok true t) h r e = cc
verdict-decides (ok false t) h r e = cc
verdict-decides (throw x t) h r e = r
verdict-decides out_of_fuel h r e = r

verdicts-decides : (c : Loaded) → c ≢ undecided → verdicts c ≢ undecided
verdicts-decides (loaded h) n e = verdict-decides (judge h) h (judge-Recounts h) e
verdicts-decides (refused r) n e = cc
verdicts-decides undecided n e = n refl

-- An image is always accepted or refused, whatever its bytes and whatever the length of its buffer.
pub load_image-decides : (i : Image) (len : ℕ) → load_image i len ≢ undecided
unfolding load_image create_loaded
load_image-decides i len e =
    let c : create_loaded i ≢ undecided = λ k. ground arith in
    let d : verdicts (create_loaded i) ≢ undecided = verdicts-decides (create_loaded i) c in
    ground arith
