-- ===== src/BlockField/Outside.antt =====
-- Blocks whose bytes lead out of them.
use msgcore.Prelude.{
  ℕ, ◌+◌, ◌*◌, ◌%◌, ◌^◌, ◌≤◌, ◌<◌, ◌≡◌, ◌≢◌, ◌⊎◌, inl, inr, refl, sym, ap, ◌∙◌, subst, Bool, true,
  false, ◌&&◌, arith, Bool-cases, ◌||◌, not, ltb, leb, ◌==◌,
}
use msgcore.Width.{sizeof_hdr, addr_bytes}
use msgcore.Heap.{sizenn}
use msgcore.Heap.Load.{width_of}
use msgcore.Bytes.{Memory, Fault, ok, get08, blob_zero}
use msgcore.BlockName.{name_sizeof_min}
use msgcore.BlockField.{
  block_at, block_pud, owner_chk, item_pdata, block_pdata, field_pdata, type_of, field_type,
  data_type, item_type, item_vpu, width_at,
}
use msgcore.BlockField.Place.{owner_chk_iff, are_leb}
use msgcore.BlockField.Same.{
  ending, SameBlock, after, found_wrong, data_at, wrong, last, field_pdata-run, sizenn-same,
}

beyond : (a b c d : ℕ) → d < c → (leb a b && leb c d) ≡ false
beyond a b c d lt = ground arith

-- For an item of bare data, in a block that ends before the six addresses of the item and the header
-- of the data do, `VBLock_pData` gives a place for which its own check would have thrown.
pub block_pdata-item_data :
    (m : Memory) (b : ℕ)
    → 0 < b
    → b + sizenn (block_at m b) < 2 ^ 64
    → type_of (get08 m b) ≡ item_type
    → type_of (get08 m (block_pud m b)) ≡ data_type
    → sizenn (block_at m b) < sizeof_hdr (width_at m b) + 1 + 6 * addr_bytes (width_at m b) + 2
    → (d : ℕ) × (block_pdata b m ≡ ok d m) × (owner_chk m b d 2 ≡ false)
unfolding block_pdata item_pdata
block_pdata-item_data m b pos fit item data_item short =
    let z : (b == 0) ≡ false = ground arith in
    let d = item_vpu (get08 m b) (block_pud m b) in
    (
      d,
      rw (block_pdata, z, item, item_pdata, data_item) refl,
      owner_chk_iff m b d 2 pos fit ∙ beyond b d (d + 2) (b + sizenn (block_at m b)) (omega arith),
    )

-- The throw for a capacity of zero.
is_zero : ℕ ⊎ Fault → Bool
is_zero (inr blob_zero) = true
is_zero _ = false

not_zero :
    (u p a c d owner at : ℕ) (m : Memory)
    → 0 < c
    → is_zero (ending (after (wrong u p a c d) owner at m)) ≡ false
unfolding wrong after last is_zero
not_zero u p a c d owner at m pos =
    let cz : (c == 0) ≡ false = ground arith in
    elim (Bool-cases (p == 0)) [
      | inl z ↦ rw (wrong, z) refl
      | inr z ↦ elim (Bool-cases (ltb (5 + c * 2) (name_sizeof_min u))) [
        | inl f ↦ rw (wrong, z, cz, f) refl
        | inr f ↦ elim (Bool-cases (not (a == 0xFF || a == 0x7F) && ltb c d)) [
          | inl o ↦ rw (wrong, z, cz, f, o) refl
          | inr o ↦ elim (Bool-cases (owner_chk m owner at 2)) [
            | inl k ↦ rw (wrong, z, cz, f, o, last, k) refl
            | inr k ↦ rw (wrong, z, cz, f, o, last, k) refl
          ]
        ]
      ]
    ]

zero_found :
    (u p a d owner at : ℕ) (m : Memory)
    → 0 < p
    → is_zero (ending (after (wrong u p a 0 d) owner at m)) ≡ true
unfolding wrong after is_zero
zero_found u p a d owner at m pos = let z : (p == 0) ≡ false = ground arith in rw (wrong, z) refl

zero_is : (x : ℕ) → (x == 0) ≡ true → x ≡ 0
zero_is x z = ground arith

pos_is : (x : ℕ) → (x == 0) ≡ false → 0 < x
pos_is x z = ground arith

differ : {x y : ℕ} → (x == 0) ≡ (y == 0) → y ≡ 0 → ¬ (x ≢ 0)
differ e z nz = ground arith

min_narrow : (u : ℕ) → u % 4 ≡ 0 → name_sizeof_min u ≡ 1
unfolding name_sizeof_min
min_narrow u narrow = ground arith

-- A block of the narrowest width, with room for a header, an attribute and the attribute of a name.
module _ (m : Memory) (b : ℕ) (pos : 0 < b) (narrow : get08 m b % 4 ≡ 0)
    (field : type_of (get08 m b) ≡ field_type) (four : sizenn (block_at m b) ≡ 4)
    (fit : b + 4 < 2 ^ 64) where
  field08-run : block_pdata b m ≡ after (found_wrong (get08 m b) (b + 2) m) b (data_at (b + 2) m) m
  unfolding block_pdata
  field08-run =
      let z : (b == 0) ≡ false = ground arith in
      let one = min_narrow (get08 m b) narrow in
      let least : b + 2 + 1 + name_sizeof_min (get08 m b) ≤ b + sizenn (block_at m b) =
        omega arith in
      let chk : owner_chk m b (b + 2 + 1) (name_sizeof_min (get08 m b)) ≡ true =
        owner_chk_iff m b _ _ pos (omega arith) ∙ are_leb (omega arith) least in
      let run : block_pdata b m ≡ field_pdata (get08 m b) (b + 2) b m =
        rw (block_pdata, z, field, narrow) refl in
      run ∙ field_pdata-run (get08 m b) (b + 2) b m chk

  field08-zero : is_zero (ending (block_pdata b m)) ≡ (get08 m (b + 4) == 0)
  unfolding found_wrong
  field08-zero =
      let u = get08 m b in
      let at : b + 2 + 1 + 1 ≡ b + 4 = omega arith in
      elim (Bool-cases (get08 m (b + 4) == 0)) [
        | inl z ↦
            let c : m (b + 2 + 1 + 1) ≡ 0 = ap m at ∙ zero_is _ z in
            ap (λ o. is_zero (ending o)) field08-run
            ∙ ap
                (λ c. is_zero (
                  ending (
                    after (wrong u (b + 2 + 1) (m (b + 2 + 1)) c (m (b + 2 + 1 + 2))) b
                      (data_at (b + 2) m) m)))
                c
            ∙ zero_found u (b + 2 + 1) (m (b + 2 + 1)) (m (b + 2 + 1 + 2)) b (data_at (b + 2) m) m
                (omega arith)
            ∙ sym z
        | inr nz ↦
            ap (λ o. is_zero (ending o)) field08-run
            ∙ not_zero u (b + 2 + 1) (m (b + 2 + 1)) (m (b + 2 + 1 + 1)) (m (b + 2 + 1 + 2)) b
                (data_at (b + 2) m) m (subst (λ k. 0 < m k) (sym at) (pos_is _ nz))
            ∙ sym nz
      ]

-- In a field of the narrowest width whose block ends with the first byte of the name, `VBLock_pData`
-- reads the byte behind the block: two memories that differ there, by a zero, give different
-- throws or places, although the block is the same in both.
pub block_pdata-reads_past :
    (m n : Memory) (b : ℕ)
    → 0 < b
    → b + 4 < 2 ^ 64
    → get08 m b % 4 ≡ 0
    → type_of (get08 m b) ≡ field_type
    → sizenn (block_at m b) ≡ 4
    → SameBlock m n b
    → get08 m (b + 4) ≡ 0
    → get08 n (b + 4) ≢ 0
    → ending (block_pdata b n) ≢ ending (block_pdata b m)
block_pdata-reads_past m n b pos fit narrow field four same zero more e =
    let two : sizeof_hdr (width_of (get08 m b % 4)) ≡ 2 = rw narrow refl in
    let room : sizeof_hdr (width_at m b) + 1 ≤ sizenn (block_at m b) = omega arith in
    let (d, s) = sizenn-same m n b room same in
    let x = field08-zero m b pos narrow field four fit in
    let y =
      field08-zero n b pos (ap (λ u. u % 4) d ∙ narrow) (ap type_of d ∙ field) (s ∙ four) fit in
    differ (sym y ∙ ap is_zero e ∙ x) zero more
