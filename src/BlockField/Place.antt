-- ===== src/BlockField/Place.antt =====
-- Where the data of a block stands, and when it is given out.
use msgcore.Prelude.{
  ℕ, ◌+◌, ◌^◌, ◌≤◌, ◌<◌, ◌≡◌, ◌≢◌, ◌⊎◌, inl, inr, refl, sym, ap, ◌∙◌, subst, Bool, true, false,
  ◌||◌, ◌&&◌, not, arith, Bool-cases, leb, ltb, ◌==◌,
}
use msgcore.Heap.{sizenn}
use msgcore.Heap.Bounds.{chk_contained}
use msgcore.Bytes.{
  Memory, Outcome, ok, throw, Fault, get08, leaves_block, name_absent, blob_zero, below_floor,
  blob_overused,
}
use msgcore.BlockName.{
  name_sizeof_min, name_sizenn, name_chk_well_formed, name_is_chained, name_blob_size,
  name_blob_used,
}
use msgcore.BlockField.{
  block_at, block_pud, owner_chk, field_pname, field_pdata, item_pdata, block_pdata, item_pname,
  block_pname, type_of, name_type, field_type, data_type, list_type, vect_type, item_type, item_vpu,
  list_pfield, vect_pfield,
}

-- The name at `n` could have been written by the library, and it and the header of the data behind
-- it are the block's.
pub record Holds (m : Memory) (b n : ℕ) : Type 0 where
  pub starts : b ≤ n
  pub floor : n + name_sizeof_min (get08 m b) ≤ b + sizenn (block_at m b)
  pub capacity : 0 < name_blob_size m n
  pub size : name_sizeof_min (get08 m b) ≤ name_sizenn m n
  pub used : name_is_chained m n ≡ false → name_blob_used m n ≤ name_blob_size m n
  pub ends : n + name_sizenn m n + 2 ≤ b + sizenn (block_at m b)

pub owner_chk_iff :
    (m : Memory) (b pv span : ℕ)
    → 0 < b
    → b + sizenn (block_at m b) < 2 ^ 64
    → owner_chk m b pv span ≡ (leb b pv && leb (pv + span) (b + sizenn (block_at m b)))
unfolding owner_chk chk_contained
owner_chk_iff m b pv span pos fit = ground arith

-- The tests on a name.
well_formed : ℕ → ℕ → Memory → Bool
well_formed u p m =
    not (p == 0)
    && not (name_blob_size m p == 0)
    && leb (name_sizeof_min u) (name_sizenn m p)
    && (name_is_chained m p || leb (name_blob_used m p) (name_blob_size m p))

chk-well_formed :
    (u p : ℕ) (m : Memory)
    → ((well_formed u p m ≡ true) × (name_chk_well_formed u p m ≡ ok tt m))
      ⊎ ((well_formed u p m ≡ false) × ((f : Fault) × (name_chk_well_formed u p m ≡ throw f m)))
unfolding name_chk_well_formed well_formed
chk-well_formed u p m = elim (Bool-cases (p == 0)) [
  | inl a ↦ inr (ground arith, (name_absent, rw (name_chk_well_formed, a) refl))
  | inr a ↦ elim (Bool-cases (name_blob_size m p == 0)) [
    | inl b ↦ inr (ground arith, (blob_zero, rw (name_chk_well_formed, a, b) refl))
    | inr b ↦ elim (Bool-cases (ltb (name_sizenn m p) (name_sizeof_min u))) [
      | inl c ↦ inr (ground arith, (below_floor, rw (name_chk_well_formed, a, b, c) refl))
      | inr c ↦
          elim (Bool-cases
            (not (name_is_chained m p) && ltb (name_blob_size m p) (name_blob_used m p))) [
              | inl d ↦
                  inr (ground arith, (blob_overused, rw (name_chk_well_formed, a, b, c, d) refl))
              | inr d ↦ inl (ground arith, rw (name_chk_well_formed, a, b, c, d) refl)
            ]
    ]
  ]
]

is_pos : {x : ℕ} → 0 < x → (x == 0) ≡ false
is_pos lt = ground arith

is_leb : {x y : ℕ} → x ≤ y → leb x y ≡ true
is_leb le = ground arith

pub are_leb : {x y z t : ℕ} → x ≤ y → z ≤ t → (leb x y && leb z t) ≡ true
are_leb a b = ground arith

-- The tests on the name at `n` in a block's.
module _ (m : Memory) (b n : ℕ) (pos : 0 < b) (le : b ≤ n)
    (fit : b + sizenn (block_at m b) < 2 ^ 64) where
  abbrev u : ℕ
  u = get08 m b

  abbrev AreTests : Type 0
  AreTests =
      (owner_chk m b n (name_sizeof_min u) ≡ true)
      × (well_formed u n m ≡ true)
      × (owner_chk m b (n + name_sizenn m n) 2 ≡ true)

  Holds-tests : Holds m b n → AreTests
  unfolding well_formed
  Holds-tests h =
      let at : (n == 0) ≡ false = is_pos (omega arith) in
      let some_units : (name_blob_size m n == 0) ≡ false = is_pos h.capacity in
      let least : leb (name_sizeof_min u) (name_sizenn m n) ≡ true = is_leb h.size in
      let used =
        elim (Bool-cases (name_is_chained m n))
          as (λ _. (name_is_chained m n || leb (name_blob_used m n) (name_blob_size m n)) ≡ true) [
            | inl c ↦ rw c refl
            | inr c ↦ rw (c, is_leb (h.used c)) refl
          ] in
      (
        owner_chk_iff m b n (name_sizeof_min u) pos fit ∙ are_leb le h.floor,
        rw (at, some_units, least, used) refl,
        owner_chk_iff m b (n + name_sizenn m n) 2 pos fit ∙ are_leb (omega arith) h.ends,
      )

  tests-Holds : AreTests → Holds m b n
  unfolding well_formed
  tests-Holds (a, w, c) =
      let a' = sym (owner_chk_iff m b n (name_sizeof_min u) pos fit) ∙ a in
      let c' = sym (owner_chk_iff m b (n + name_sizenn m n) 2 pos fit) ∙ c in
      record {
        starts = le;
        floor = ground arith;
        capacity = ground arith;
        size = ground arith;
        used = λ nc. ground arith;
        ends = ground arith;
      }

contrary : (x : Bool) → x ≡ true → ¬ (x ≡ false)
contrary x t f = ground arith

-- Either the name at a field holds, and the data is given out behind it, or neither.
field-decides :
    (m : Memory) (b p : ℕ)
    → 0 < b
    → b ≤ p
    → b + sizenn (block_at m b) < 2 ^ 64
    → (Holds m b (field_pname p)
        × (field_pdata (get08 m b) p b m ≡ ok (field_pname p + name_sizenn m (field_pname p)) m))
      ⊎ ((¬ Holds m b (field_pname p))
          × ((f : Fault) × (field_pdata (get08 m b) p b m ≡ throw f m)))
unfolding field_pdata
field-decides m b p pos le fit =
    let u = get08 m b in
    let n = field_pname p in
    let to = Holds-tests m b n pos (omega arith) fit in
    let from = tests-Holds m b n pos (omega arith) fit in
    elim (Bool-cases (owner_chk m b n (name_sizeof_min u))) [
      | inr a ↦ inr (λ h. contrary _ (to h).0 a, (leaves_block, rw (field_pdata, a) refl))
      | inl a ↦ elim (chk-well_formed u n m) [
        | inr (bad, (f, e)) ↦ inr (λ h. contrary _ (to h).1 bad, (f, rw (field_pdata, a, e) refl))
        | inl (good, e) ↦ elim (Bool-cases (owner_chk m b (n + name_sizenn m n) 2)) [
          | inr c ↦ inr (λ h. contrary _ (to h).2 c, (leaves_block, rw (field_pdata, a, e, c) refl))
          | inl c ↦ inl (from (a, good, c), rw (field_pdata, a, e, c) refl)
        ]
      ]
    ]

found : Outcome ℕ → ℕ
found (ok p m) = p
found (throw f m) = 0

is_ok : Outcome ℕ → Bool
is_ok (ok p m) = true
is_ok (throw f m) = false

-- A type is one alone.
other : (t x y : ℕ) → (t == x) ≡ true → x ≢ y → (t == y) ≡ false
other t x y a ne = ground arith

thrown : {A : Type 0} → (o : Outcome ℕ) {p : ℕ} {m : Memory} → o ≡ ok p m → is_ok o ≡ false → A
unfolding is_ok
thrown o e z = absurd (contrary (is_ok o) (ap is_ok e) z)

-- Where a field's name is found, its data is looked for.
abbrev LeadsTo : (Outcome ℕ) → ℕ → Memory → ℕ → ℕ → Type 0
LeadsTo o n m b p = (q : ℕ) × (n ≡ field_pname q) × (p ≤ q) × (o ≡ field_pdata (get08 m b) q b m)

leads :
    {o o' : Outcome ℕ} {m : Memory} {p n : ℕ} (b q : ℕ)
    → o ≡ ok n m
    → o ≡ ok (field_pname q) m
    → p ≤ q
    → o' ≡ field_pdata (get08 m b) q b m
    → LeadsTo o' n m b p
unfolding found
leads b q e e' le run = (q, sym (ap found e) ∙ ap found e', le, run)

item-field :
    (m : Memory) (b p n : ℕ)
    → item_pname (get08 m b) p m ≡ ok n m
    → LeadsTo (item_pdata (get08 m b) p b m) n m b p
unfolding item_pname item_pdata is_ok
item-field m b p n e =
    let u = get08 m b in
    let t = type_of (get08 m p) in
    elim (Bool-cases (t == field_type)) [
      | inl a ↦
          leads b (item_vpu u p) e (rw (item_pname, a) refl) (omega arith) (rw (item_pdata, a) refl)
      | inr a ↦ elim (Bool-cases (t == list_type)) [
        | inl c ↦
            let d = other t list_type data_type c (omega arith) in
            leads b (list_pfield u (item_vpu u p)) e (rw (item_pname, a, c) refl) (omega arith)
              (rw (item_pdata, a, d, c) refl)
        | inr c ↦ elim (Bool-cases (t == vect_type)) [
          | inl v ↦
              let d = other t vect_type data_type v (omega arith) in
              leads b (vect_pfield u (item_vpu u p)) e (rw (item_pname, a, c, v) refl) (omega arith)
                (rw (item_pdata, a, d, c, v) refl)
          | inr v ↦ thrown (item_pname u p m) e (rw (item_pname, a, c, v) refl)
        ]
      ]
    ]

block-field :
    (m : Memory) (b n : ℕ)
    → 0 < b
    → type_of (get08 m b) ≢ name_type
    → block_pname b m ≡ ok n m
    → LeadsTo (block_pdata b m) n m b b
unfolding block_pname block_pdata is_ok
block-field m b n pos named e =
    let u = get08 m b in
    let t = type_of u in
    let p = block_pud m b in
    let z : (b == 0) ≡ false = is_pos pos in
    let nn : (t == name_type) ≡ false = ground arith in
    elim (Bool-cases (t == field_type)) [
      | inl a ↦
          let d = other t field_type data_type a (omega arith) in
          leads b p e (rw (block_pname, nn, a) refl) (omega arith) (rw (block_pdata, z, d, a) refl)
      | inr a ↦ elim (Bool-cases (t == item_type)) [
        | inl i ↦
            let d = other t item_type data_type i (omega arith) in
            let (q, eq, le, run) = item-field m b p n (rw (block_pname, nn, a, i) refl ∙ e) in
            (q, eq, omega arith, rw (block_pdata, z, d, a, i) run)
        | inr i ↦ elim (Bool-cases (t == list_type)) [
          | inl c ↦
              let d = other t list_type data_type c (omega arith) in
              leads b (list_pfield u p) e (rw (block_pname, nn, a, i, c) refl) (omega arith)
                (rw (block_pdata, z, d, a, i, c) refl)
          | inr c ↦ elim (Bool-cases (t == vect_type)) [
            | inl v ↦
                let d = other t vect_type data_type v (omega arith) in
                leads b (vect_pfield u p) e (rw (block_pname, nn, a, i, c, v) refl) (omega arith)
                  (rw (block_pdata, z, d, a, i, c, v) refl)
            | inr v ↦ thrown (block_pname b m) e (rw (block_pname, nn, a, i, c, v) refl)
          ]
        ]
      ]
    ]

-- For a block of another type than a bare name, where `VBLock_pName` finds a name: either the name
-- holds and `VBLock_pData` gives the place behind it, or the name does not hold and it throws;
-- the memory is as it was in both.
pub block_pdata-decides :
    (m : Memory) (b n : ℕ)
    → 0 < b
    → b + sizenn (block_at m b) < 2 ^ 64
    → type_of (get08 m b) ≢ name_type
    → block_pname b m ≡ ok n m
    → (Holds m b n × (block_pdata b m ≡ ok (n + name_sizenn m n) m))
      ⊎ ((¬ Holds m b n) × ((f : Fault) × (block_pdata b m ≡ throw f m)))
block_pdata-decides m b n pos fit named e =
    let (q, at, le, run) = block-field m b n pos named e in
    subst
      (λ n.
        (Holds m b n × (block_pdata b m ≡ ok (n + name_sizenn m n) m))
        ⊎ ((¬ Holds m b n) × ((f : Fault) × (block_pdata b m ≡ throw f m))))
      (sym at)
      (subst
        (λ o.
          (Holds m b (field_pname q) × (o ≡ ok (field_pname q + name_sizenn m (field_pname q)) m))
          ⊎ ((¬ Holds m b (field_pname q)) × ((f : Fault) × (o ≡ throw f m))))
        (sym run) (field-decides m b q pos le fit))
