-- ===== src/BlockName/Laid.antt =====
-- Names that are laid out in the block itself.
use msgcore.Prelude.{
  ℕ, ◌+◌, ◌-◌, ◌*◌, ◌/◌, ◌%◌, ◌^◌, ◌≤◌, ◌<◌, ◌≡◌, ◌≢◌, refl, ap, sym, ◌∙◌, true, false, List,
  length, arith, ltb, ◌==◌,
}
use msgcore.Bytes.{Memory, ok, within, get08, put08, put16, put_units, get_units}
use msgcore.Bytes.Units.{put_units-outside, get_units-put_units, get_units-same}
use msgcore.Wide.{wide_units, store_wide, load_wide}
use msgcore.Wide.Laws.{IsText, load_wide-store_wide, length-store_wide, store_wide-AreUnits}
use msgcore.BlockName.{
  mode, name_sizeof, name_sizeof_min, name_init, name_sizenn, name_blob_used, name_blob_size,
  name_chk_well_formed, name_is_chained, c_name,
}

-- What laying out a name of at most `k` characters leaves.
pub record Lays (u p attr k : ℕ) (name : List ℕ) (m m' : Memory) : Type 0 where
  pub size : name_sizenn m' p ≡ name_sizeof u k
  pub used : name_blob_used m' p ≡ wide_units name
  pub well_formed : name_chk_well_formed u p m' ≡ ok tt m'
  pub reads : IsText name → c_name m' p ≡ name
  pub outside : (q : ℕ) → within p (name_sizeof u k) q ≡ false → m' q ≡ m q

laid_size :
    (u k : ℕ)
    → mode u ≢ 0
    → k ≤ 125
    → (4 + 1 + 2 * k ≤ name_sizeof u k)
      × (name_sizeof_min u ≤ name_sizeof u k)
      × (name_sizeof u k ≤ 255)
      × ((name_sizeof u k - 5) / 2 * 2 + 5 ≡ name_sizeof u k)
      × (7 ≤ name_sizeof_min u)
unfolding name_sizeof name_sizeof_min
laid_size u k ne le = ground arith

-- The bytes that a name's initialisation leaves.
abbrev laid : ℕ → ℕ → ℕ → List ℕ → Memory → Memory
laid p attr cap name m = put08 (p + 2) (wide_units name) (
    put16 (p + 3 + 2 * wide_units name) 0
      (put_units (p + 3) (store_wide name) (put08 (p + 1) cap (put08 p attr m))))

name_init-run :
    (u p attr size : ℕ) (name : List ℕ) (m : Memory)
    → name_sizeof_min u ≤ size
    → 5 ≤ size
    → size ≤ 255
    → 5 + 2 * wide_units name ≤ size
    → name_init u p attr name size m ≡ ok tt (laid p attr ((size - 5) / 2) name m)
unfolding name_init
name_init-run u p attr size name m min five top le =
    let room : (size + 2 ^ 64 - 5) % 2 ^ 64 ≡ size - 5 = omega arith in
    let a : ltb size (name_sizeof_min u) ≡ false = ground arith in
    let b : ((size - 5) % 0x100 == size - 5) ≡ true = ground arith in
    let c : ltb (name_blob_size (put08 (p + 1) ((size - 5) / 2) (put08 p attr m)) p)
          (wide_units name)
        ≡ false =
      ground arith in
    rw (room, a, b, c) refl

-- The bytes of a laid out name, one part after the other.
module _ (p attr cap : ℕ) (name : List ℕ) (m : Memory) (fit : wide_units name < 0x80)
    (room : cap < 0x80) (few : wide_units name ≤ cap) where
  laid-head :
      (get08 (laid p attr cap name m) p ≡ attr % 0x100)
      × (name_blob_size (laid p attr cap name m) p ≡ cap)
      × (name_blob_used (laid p attr cap name m) p ≡ wide_units name)
  laid-head =
      let l = length-store_wide name in
      let n = put08 (p + 1) cap (put08 p attr m) in
      let a = put_units-outside (p + 3) p (store_wide name) n (ground arith) in
      let b = put_units-outside (p + 3) (p + 1) (store_wide name) n (ground arith) in
      (ground arith, ground arith, ground arith)

  laid-outside : (q : ℕ) → within p (5 + 2 * cap) q ≡ false → laid p attr cap name m q ≡ m q
  laid-outside q out =
      let l = length-store_wide name in
      let n = put08 (p + 1) cap (put08 p attr m) in
      let a = put_units-outside (p + 3) q (store_wide name) n (ground arith) in ground arith

  laid-reads : IsText name → c_name (laid p attr cap name m) p ≡ name
  unfolding c_name
  laid-reads text =
      let (h₀, h₁, h₂) = laid-head in
      let l = (length-store_wide name).1 text in
      let n = put08 (p + 1) cap (put08 p attr m) in
      let same =
        get_units-same (put_units (p + 3) (store_wide name) n) (laid p attr cap name m) (p + 3)
          (length (store_wide name)) (λ q i. ground arith) in
      let back = get_units-put_units (p + 3) (store_wide name) n (store_wide-AreUnits name text) in
      ap (λ k. load_wide (get_units (laid p attr cap name m) (p + 3) k)) (h₂ ∙ sym l)
      ∙ ap load_wide (same ∙ back)
      ∙ load_wide-store_wide name text

well_formed_lem :
    (u p : ℕ) (m : Memory)
    → 0 < p
    → 0 < name_blob_size m p
    → name_sizeof_min u ≤ name_sizenn m p
    → name_is_chained m p ≡ false
    → name_blob_used m p ≤ name_blob_size m p
    → name_chk_well_formed u p m ≡ ok tt m
unfolding name_chk_well_formed
well_formed_lem u p m pos some min own few = ground arith

-- A name of at most 125 characters and units, laid out by the size that the code computes for it and
-- flagged as not chained, in a mode that the library writes: initialisation succeeds, the name takes
-- just those bytes and changes no other, counts its units, is well-formed to the check on received
-- names, and reads back if it is a text.
pub name_init-ok :
    (u p attr k : ℕ) (name : List ℕ) (m : Memory)
    → mode u ≢ 0
    → k ≤ 125
    → wide_units name ≤ k
    → 0 < p
    → attr < 0x100
    → attr ≢ 0x7F
    → attr ≢ 0xFF
    → (m' : Memory) × (name_init u p attr name (name_sizeof u k) m ≡ ok tt m')
      × Lays u p attr k name m m'
unfolding name_sizenn
name_init-ok u p attr k name m ne top few pos byte own own' =
    let (fits, min, small, even, seven) = laid_size u k ne top in
    let cap = (name_sizeof u k - 5) / 2 in
    let (h₀, h₁, h₂) = laid-head p attr cap name m (omega arith) (omega arith) (omega arith) in
    (
      laid p attr cap name m,
      name_init-run u p attr (name_sizeof u k) name m min (omega arith) small (omega arith),
      record {
        size = ground arith;
        used = h₂;
        well_formed =
            well_formed_lem u p (laid p attr cap name m) pos (omega arith) (omega arith)
              (ground arith) (omega arith);
        reads = laid-reads p attr cap name m (omega arith) (omega arith) (omega arith);
        outside = λ q out.
            laid-outside p attr cap name m (omega arith) (omega arith) (omega arith) q
              (ground arith);
      },
    )
