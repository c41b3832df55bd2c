-- ===== src/BlockField/Same.antt =====
-- What the way to the data reads: the block's own bytes alone.
use msgcore.Prelude.{
  ℕ, ◌+◌, ◌*◌, ◌%◌, ◌^◌, ◌≤◌, ◌<◌, ◌≡◌, ◌≢◌, ◌⊎◌, inl, inr, refl, sym, ap, ◌∙◌, Option, some, none,
  true, false, ◌||◌, ◌&&◌, not, arith, Bool-cases, leb, ltb, ◌==◌, if◌then◌else◌,
}
use msgcore.Width.{sizeof_hdr, addr_bytes}
use msgcore.Heap.{sizenn, truncate_size}
use msgcore.Heap.Load.{width_of}
use msgcore.Bytes.{
  Memory, Outcome, ok, throw, Fault, get08, get, within, leaves_block, name_absent, blob_zero,
  below_floor, blob_overused,
}
use msgcore.Bytes.Laws.{get-same}
use msgcore.BlockName.{
  name_sizeof_min, name_sizenn, name_chk_well_formed, name_is_chained, name_blob_size,
  name_blob_used,
}
use msgcore.BlockField.{
  block_at, block_pud, owner_chk, field_pdata, item_pdata, block_pdata, type_of, field_type,
  data_type, list_type, vect_type, item_type, item_vpu, list_pfield, vect_pfield, width_at,
}
use msgcore.BlockField.Place.{owner_chk_iff}

-- How a call ends, the memory aside.
abbrev pub ending : Outcome ℕ → ℕ ⊎ Fault
ending (ok p m) = inl p
ending (throw f m) = inr f

-- The bytes of the block at `b` of `m` are the same in `n`.
abbrev pub SameBlock : Memory → Memory → ℕ → Type 0
SameBlock m n b = (q : ℕ) → within b (sizenn (block_at m b)) q ≡ true → n q ≡ m q

-- Room for the header and the byte behind it.
abbrev pub HasHeader : Memory → ℕ → Type 0
HasHeader m b = sizeof_hdr (width_at m b) + 1 ≤ sizenn (block_at m b)

pub inside : (b s q : ℕ) → b ≤ q → q < b + s → within b s q ≡ true
inside b s q le lt = ground arith

header-inside : (b h s q : ℕ) → h + 1 ≤ s → within b (h + 1) q ≡ true → within b s q ≡ true
header-inside b h s q le i = ground arith

field-inside : (b k q : ℕ) → within (b + 1) k q ≡ true → within b (1 + k + 1) q ≡ true
field-inside b k q i = ground arith

-- The size, as a function of the definitions' byte.
size_by : ℕ → Memory → ℕ → ℕ
size_by u m b = truncate_size (width_of (u % 4)) (get (width_of (u % 4)) m (b + 1))

sizenn-by : (m : Memory) (b : ℕ) → sizenn (block_at m b) ≡ size_by (get08 m b) m b
unfolding sizenn size_by
sizenn-by m b = refl

pub sizenn-same :
    (m n : Memory) (b : ℕ)
    → HasHeader m b
    → SameBlock m n b
    → (get08 n b ≡ get08 m b) × (sizenn (block_at n b) ≡ sizenn (block_at m b))
unfolding size_by
sizenn-same m n b room same =
    let w = width_at m b in
    let d : get08 n b ≡ get08 m b = same b (inside b _ b (omega arith) (omega arith)) in
    let s = get-same w (b + 1) m n (λ q i.
      same q (header-inside b (sizeof_hdr w) _ q room (field-inside b (addr_bytes w) q i))) in
    (d, sizenn-by n b ∙ ap (λ u. size_by u n b) d ∙ ap (truncate_size w) s ∙ sym (sizenn-by m b))

-- What `VBLockName_ChkWellFormed` finds wrong, from the three bytes that it reads.
unfoldable pub wrong : ℕ → ℕ → ℕ → ℕ → ℕ → Option Fault
wrong u p a c d =
    if p == 0
    then some name_absent
    else if c == 0
    then some blob_zero
    else if ltb (5 + c * 2) (name_sizeof_min u)
    then some below_floor
    else if not (a == 0xFF || a == 0x7F) && ltb c d
    then some blob_overused
    else none

-- The last step to the data.
unfoldable pub last : ℕ → ℕ → Memory → Outcome ℕ
last owner d m = if not (owner_chk m owner d 2) then throw leaves_block m else ok d m

unfoldable pub after : Option Fault → ℕ → ℕ → Memory → Outcome ℕ
after (some f) owner d m = throw f m
after none owner d m = last owner d m

unfoldable pub found_wrong : ℕ → ℕ → Memory → Option Fault
found_wrong u p m = wrong u (p + 1) (m (p + 1)) (m (p + 1 + 1)) (m (p + 1 + 2))

unfoldable pub data_at : ℕ → Memory → ℕ
data_at p m = p + 1 + (5 + m (p + 1 + 1) * 2)

pub field_pdata-run :
    (u p owner : ℕ) (m : Memory)
    → owner_chk m owner (p + 1) (name_sizeof_min u) ≡ true
    → field_pdata u p owner m ≡ after (found_wrong u p m) owner (data_at p m) m
unfolding field_pdata name_chk_well_formed name_sizenn wrong last after found_wrong data_at
field_pdata-run u p owner m held =
    let n = p + 1 in
    elim (Bool-cases (n == 0)) [
      | inl a ↦ rw (field_pdata, held, a) refl
      | inr a ↦ elim (Bool-cases (name_blob_size m n == 0)) [
        | inl b ↦ rw (field_pdata, held, a, b) refl
        | inr b ↦ elim (Bool-cases (ltb (5 + name_blob_size m n * 2) (name_sizeof_min u))) [
          | inl c ↦ rw (field_pdata, held, a, b, c) refl
          | inr c ↦
              elim (Bool-cases
                (not (name_is_chained m n) && ltb (name_blob_size m n) (name_blob_used m n))) [
                  | inl d ↦ rw (field_pdata, held, a, b, c, d) refl
                  | inr d ↦ rw (field_pdata, held, a, b, c, d) refl
                ]
        ]
      ]
    ]

field_pdata-leaves :
    (u p owner : ℕ) (m : Memory)
    → owner_chk m owner (p + 1) (name_sizeof_min u) ≡ false
    → field_pdata u p owner m ≡ throw leaves_block m
unfolding field_pdata
field_pdata-leaves u p owner m out = rw (field_pdata, out) refl

min_wide : (u : ℕ) → u % 4 ≢ 0 → 7 ≤ name_sizeof_min u
unfolding name_sizeof_min
min_wide u wide = ground arith

upper : (a b c d : ℕ) → (leb a b && leb c d) ≡ true → c ≤ d
upper a b c d e = ground arith

module _ (m n : Memory) (b : ℕ) (pos : 0 < b) (fit : b + sizenn (block_at m b) < 2 ^ 64)
    (wide : get08 m b % 4 ≢ 0) (room : HasHeader m b) (same : SameBlock m n b) where
  owner_chk-same : (pv span : ℕ) → owner_chk n b pv span ≡ owner_chk m b pv span
  owner_chk-same pv span =
      let s = (sizenn-same m n b room same).1 in
      owner_chk_iff n b pv span pos (omega arith)
      ∙ ap (λ s. leb b pv && leb (pv + span) (b + s)) s
      ∙ sym (owner_chk_iff m b pv span pos fit)

  last-same : (d : ℕ) → ending (last b d n) ≡ ending (last b d m)
  unfolding last
  last-same d =
      let e = owner_chk-same d 2 in
      elim (Bool-cases (owner_chk m b d 2)) [ inl a ↦ rw (e, a) refl | inr a ↦ rw (e, a) refl ]

  after-same : (o : Option Fault) (d : ℕ) → ending (after o b d n) ≡ ending (after o b d m)
  unfolding after
  after-same (some f) d = refl
  after-same none d = last-same d

  name-same :
      (p : ℕ)
      → b ≤ p
      → owner_chk m b (p + 1) (name_sizeof_min (get08 m b)) ≡ true
      → (n (p + 1) ≡ m (p + 1)) × (n (p + 1 + 1) ≡ m (p + 1 + 1)) × (n (p + 1 + 2) ≡ m (p + 1 + 2))
  name-same p le held =
      let e = sym (owner_chk_iff m b (p + 1) (name_sizeof_min (get08 m b)) pos fit) ∙ held in
      let seven = min_wide (get08 m b) wide in
      let ends : p + 1 + name_sizeof_min (get08 m b) ≤ b + sizenn (block_at m b) =
        upper _ _ _ _ e in
      (
        same (p + 1) (inside b _ _ (omega arith) (omega arith)),
        same (p + 1 + 1) (inside b _ _ (omega arith) (omega arith)),
        same (p + 1 + 2) (inside b _ _ (omega arith) (omega arith)),
      )

  field_pdata-same :
      (p : ℕ)
      → b ≤ p
      → ending (field_pdata (get08 m b) p b n) ≡ ending (field_pdata (get08 m b) p b m)
  unfolding found_wrong data_at
  field_pdata-same p le =
      let u = get08 m b in
      let e = owner_chk-same (p + 1) (name_sizeof_min u) in
      elim (Bool-cases (owner_chk m b (p + 1) (name_sizeof_min u))) [
        | inr a ↦
            ap ending (field_pdata-leaves u p b n (e ∙ a))
            ∙ sym (ap ending (field_pdata-leaves u p b m a))
        | inl a ↦
            let (s₀, s₁, s₂) = name-same p le a in
            ap ending (field_pdata-run u p b n (e ∙ a))
            ∙ ap ending (rw (s₀, s₁, s₂) refl)
            ∙ after-same (found_wrong u p m) (data_at p m)
            ∙ sym (ap ending (field_pdata-run u p b m a))
      ]

  item_pdata-same :
      (p : ℕ)
      → b ≤ p
      → n p ≡ m p
      → ending (item_pdata (get08 m b) p b n) ≡ ending (item_pdata (get08 m b) p b m)
  unfolding item_pdata
  item_pdata-same p le e =
      let u = get08 m b in
      let t = type_of (get08 m p) in
      elim (Bool-cases (t == field_type)) [
        | inl a ↦ rw (item_pdata, e, a) (field_pdata-same (item_vpu u p) (omega arith))
        | inr a ↦ elim (Bool-cases (t == data_type)) [
          | inl d ↦ rw (item_pdata, e, a, d) refl
          | inr d ↦ elim (Bool-cases (t == list_type)) [
            | inl l ↦
                rw (item_pdata, e, a, d, l)
                  (field_pdata-same (list_pfield u (item_vpu u p)) (omega arith))
            | inr l ↦ elim (Bool-cases (t == vect_type)) [
              | inl v ↦
                  rw (item_pdata, e, a, d, l, v)
                    (field_pdata-same (vect_pfield u (item_vpu u p)) (omega arith))
              | inr v ↦ rw (item_pdata, e, a, d, l, v) refl
            ]
          ]
        ]
      ]

  block_same : ending (block_pdata b n) ≡ ending (block_pdata b m)
  unfolding block_pdata
  block_same =
      let u = get08 m b in
      let t = type_of u in
      let p = block_pud m b in
      let z : (b == 0) ≡ false = ground arith in
      let e = (sizenn-same m n b room same).0 in
      elim (Bool-cases (t == data_type)) [
        | inl d ↦ rw (block_pdata, z, e, d) refl
        | inr d ↦ elim (Bool-cases (t == field_type)) [
          | inl a ↦ rw (block_pdata, z, e, d, a) (field_pdata-same p (omega arith))
          | inr a ↦ elim (Bool-cases (t == item_type)) [
            | inl i ↦
                rw (block_pdata, z, e, d, a, i)
                  (item_pdata-same p (omega arith)
                    (same p (inside b _ _ (omega arith) (omega arith))))
            | inr i ↦ elim (Bool-cases (t == list_type)) [
              | inl l ↦
                  rw (block_pdata, z, e, d, a, i, l)
                    (field_pdata-same (list_pfield u p) (omega arith))
              | inr l ↦ elim (Bool-cases (t == vect_type)) [
                | inl v ↦
                    rw (block_pdata, z, e, d, a, i, l, v)
                      (field_pdata-same (vect_pfield u p) (omega arith))
                | inr v ↦ rw (block_pdata, z, e, d, a, i, l, v) refl
              ]
            ]
          ]
        ]
      ]

-- Two memories with the same bytes in a block give the same place for the data in it, or the same
-- throw: `VBLock_pData` reads no byte outside the block, however the bytes in it are forged. The
-- block has a width of at least 16 bits, and room for its header and one byte more.
pub block_pdata-same :
    (m n : Memory) (b : ℕ)
    → 0 < b
    → b + sizenn (block_at m b) < 2 ^ 64
    → get08 m b % 4 ≢ 0
    → HasHeader m b
    → SameBlock m n b
    → ending (block_pdata b n) ≡ ending (block_pdata b m)
block_pdata-same m n b pos fit wide room same = block_same m n b pos fit wide room same
