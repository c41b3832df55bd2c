-- ===== src/BlockData/Copy/Counted.antt =====
-- Copies of counted data.
use msgcore.Prelude.{
  ℕ, ◌+◌, ◌-◌, ◌*◌, ◌≤◌, ◌<◌, ◌≡◌, ◌≢◌, ◌⊎◌, inl, inr, refl, ap, ◌∙◌, true, false, arith, ltb, ◌==◌,
  if◌then◌else◌, Bool-cases,
}
use msgcore.Width.{AddrType, addr_bytes, addr_limit}
use msgcore.Bytes.{Memory, ok, within, get08, put08, put, copy_bytes, zero_bytes}
use msgcore.Bytes.Laws.{IsBytes, get-put, get-same, get-lt, put-outside}
use msgcore.BlockData.{
  is_blob, sizeof_blob, blob_size, blob_used, c_blob, by_capacity, data_sizeof, data_sizeof_uv,
  bstr08,
}
use msgcore.BlockData.Arms.{arm_at, blob_arm-is_blob, sizeof_scalar-is_blob}
use msgcore.BlockData.Copy.{data_copy, copy_blob, is_var}

-- Two stretches of memory share no byte.
abbrev pub Disjoint : ℕ → ℕ → ℕ → ℕ → Type 0
Disjoint p n q k = (p + n ≤ q) ⊎ (q + k ≤ p)

ends : (a q : ℕ) (g : Memory) → within a 2 q ≡ false → put08 (a + 1) 0 (put08 a 0 g) q ≡ g q
ends a q g out = ground arith

module _ (w : AddrType) (size dst src used : ℕ) (m : Memory) (e : blob_used w m src ≡ used) where
  -- The memory before the counts are stored.
  abbrev moved : Memory
  moved =
      let m₁ = copy_bytes (c_blob w dst) (c_blob w src) used m in
      if ltb used size then zero_bytes (c_blob w dst + used) (size - used) m₁ else m₁

  abbrev pub copied : Memory
  copied = put08 (c_blob w dst + used + 1) 0 (
      put08 (c_blob w dst + used) 0
        (put w (dst + 2 + addr_bytes w) used (put w (dst + 2) size moved)))

  pub copy_blob-run : copy_blob w size dst src m ≡ copied
  unfolding copy_blob
  copy_blob-run = rw (copy_blob, e) refl

  moved-outside :
      (room q : ℕ)
      → used ≤ room
      → size ≤ room
      → within (c_blob w dst) room q ≡ false
      → moved q ≡ m q
  moved-outside room q a b out = elim (Bool-cases (ltb used size)) [
    | inl z ↦ ground arith
    | inr nz ↦ ground arith
  ]

  stored-outside :
      (q : ℕ)
      → within (dst + 2) (2 * addr_bytes w) q ≡ false
      → put w (dst + 2 + addr_bytes w) used (put w (dst + 2) size moved) q ≡ moved q
  stored-outside q out =
      put-outside w (dst + 2 + addr_bytes w) used q (put w (dst + 2) size moved) (ground arith)
      ∙ put-outside w (dst + 2) size q moved (ground arith)

  copied-outside :
      (room q : ℕ)
      → used + 2 ≤ room
      → size ≤ room
      → within dst (2 + 2 * addr_bytes w + room) q ≡ false
      → copied q ≡ m q
  copied-outside room q a b out =
      let s = stored-outside q (ground arith) in
      let o = moved-outside room q (omega arith) b (ground arith) in
      ends (c_blob w dst + used) q
        (put w (dst + 2 + addr_bytes w) used (put w (dst + 2) size moved)) (ground arith)
      ∙ s
      ∙ o

  copied-head : (q : ℕ) → dst ≤ q → q < dst + 2 → copied q ≡ m q
  copied-head q a b =
      let s = stored-outside q (ground arith) in
      let o = moved-outside (used + size) q (omega arith) (omega arith) (ground arith) in
      ground arith

  copied-fields :
      used < addr_limit w
      → size < addr_limit w
      → (blob_used w copied dst ≡ used) × (blob_size w copied dst ≡ size)
  copied-fields fit fit' =
      let m₃ = put w (dst + 2) size moved in
      let m₄ = put w (dst + 2 + addr_bytes w) used m₃ in
      (
        get-same w (dst + 2 + addr_bytes w) m₄ copied
              (λ q i. ends (c_blob w dst + used) q m₄ (ground arith))
            ∙ get-put w (dst + 2 + addr_bytes w) used m₃ fit,
        get-same w (dst + 2) m₃ copied (λ q i.
              ends (c_blob w dst + used) q m₄ (ground arith)
              ∙ put-outside w (dst + 2 + addr_bytes w) used q m₃ (ground arith))
            ∙ get-put w (dst + 2) size moved fit',
      )

  copied-content : (i : ℕ) → i < used → copied (c_blob w dst + i) ≡ m (c_blob w src + i)
  copied-content i lt =
      let s = stored-outside (c_blob w dst + i) (ground arith) in
      elim (Bool-cases (ltb used size)) [ inl z ↦ ground arith | inr nz ↦ ground arith ]

  -- Past the terminator, up to the capacity, there are zeros.
  pub copied-rest : (i : ℕ) → used ≤ i → i < size → copied (c_blob w dst + i) ≡ 0
  copied-rest i a b =
      let s = stored-outside (c_blob w dst + i) (ground arith) in
      let z : ltb used size ≡ true = ground arith in ground arith

-- The capacity that a copy gives its destination.
abbrev pub cap_of : AddrType → ℕ → Memory → ℕ → ℕ
cap_of w t m src = if is_var t then blob_size w m src else blob_used w m src

-- Memory once the type and the attributes are stored.
abbrev pub labelled : ℕ → ℕ → Memory → Memory
labelled dst src m = let m₁ = put08 dst (get08 m src) m in put08 (dst + 1) (get08 m₁ (src + 1)) m₁

above :
    (t : ℕ) → is_blob t ≡ true → (ltb t bstr08 ≡ false) × ((t == 0) ≡ false) × ((t == 0xFF) ≡ false)
unfolding is_blob
above t b = (ground arith, ground arith, ground arith)

pub data_copy-run :
    (dst size_dst src size_src : ℕ) (m : Memory)
    → is_blob (get08 m src) ≡ true
    → size_src ≤ size_dst
    → data_copy dst size_dst src size_src m
      ≡ ok dst (
          copy_blob
            (arm_at (get08 m src))
            (cap_of (arm_at (get08 m src)) (get08 m src) (labelled dst src m) src)
            dst
            src
            (labelled dst src m))
unfolding data_copy
data_copy-run dst size_dst src size_src m b le =
    let a = blob_arm-is_blob (get08 m src) b in
    let fits : ltb size_dst size_src ≡ false = ground arith in
    let counted : ltb (get08 m src) bstr08 ≡ false = (above (get08 m src) b).0 in
    rw (data_copy, fits, counted, a) refl

-- The size that the code computes for counted data.
abbrev pub measure : ℕ → Memory → ℕ → ℕ
measure t m p =
    sizeof_blob (arm_at t)
    + (if by_capacity t then blob_size (arm_at t) m p else blob_used (arm_at t) m p)

sizeof_uv-own :
    (u : ℕ) (m : Memory) (p : ℕ)
    → is_blob (get08 m p) ≡ true
    → data_sizeof_uv u m p ≡ measure (get08 m p) m p
unfolding data_sizeof_uv
sizeof_uv-own u m p b =
    let (c, nz, own) = above (get08 m p) b in
    let a = blob_arm-is_blob (get08 m p) b in
    let s = sizeof_scalar-is_blob (get08 m p) b in rw (data_sizeof_uv, own, nz, s, a) refl

pub sizeof_uv-counted :
    (u t : ℕ) (m : Memory) (p : ℕ)
    → get08 m p ≡ t
    → is_blob t ≡ true
    → data_sizeof_uv u m p ≡ measure t m p
sizeof_uv-counted u t m p e b = sizeof_uv-own u m p (rw e b) ∙ ap (λ t. measure t m p) e

pub sizeof-counted :
    (u t : ℕ) (m : Memory) (p : ℕ)
    → get08 m p ≡ t
    → is_blob t ≡ true
    → (2 + measure t m p ≤ data_sizeof u m p)
      × ((n : Memory) (q : ℕ)
          → get08 n q ≡ t
          → measure t n q ≡ measure t m p
          → data_sizeof u n q ≡ data_sizeof u m p)
unfolding data_sizeof
sizeof-counted u t m p e b =
    let uv = sizeof_uv-counted u t m p e b in
    (ground arith, λ n q e' same. let uv' = sizeof_uv-counted u t n q e' b in ground arith)

-- What a copy of counted data of type `t` leaves.
pub record Copied (u t dst size_dst src : ℕ) (m m' : Memory) : Type 0 where
  pub type : get08 m' dst ≡ t
  pub attributes : get08 m' (dst + 1) ≡ get08 m (src + 1)
  pub used : blob_used (arm_at t) m' dst ≡ blob_used (arm_at t) m src
  pub content :
      (i : ℕ)
      → i < blob_used (arm_at t) m src
      → m' (c_blob (arm_at t) dst + i) ≡ m (c_blob (arm_at t) src + i)
  pub size : data_sizeof u m' dst ≡ data_sizeof u m src
  pub outside : (q : ℕ) → within dst size_dst q ≡ false → m' q ≡ m q

-- The capacity does not pass what the size of the data allows for: always so for a type that is laid
-- out by what is used, and for one that is sized by its capacity if no more of it is used; but for
-- the other variable types only if the capacity ends with the terminator.
abbrev pub IsSized : ℕ → Memory → ℕ → Type 0
IsSized t m src =
    let used = blob_used (arm_at t) m src in
    let cap = blob_size (arm_at t) m src in
    (by_capacity t ≡ true → used ≤ cap) × (is_var t ≡ true → by_capacity t ≡ false → cap ≤ used + 2)

pub labelled-same :
    (dst src q : ℕ) (m : Memory) → q ≢ dst → q ≢ dst + 1 → labelled dst src m q ≡ m q
labelled-same dst src q m a b = ground arith

pub labels :
    (dst src : ℕ) (m : Memory)
    → IsBytes m
    → src + 1 ≢ dst
    → (labelled dst src m dst ≡ m src) × (labelled dst src m (dst + 1) ≡ m (src + 1))
labels dst src m bytes ne =
    let a = bytes src in let b = bytes (src + 1) in (ground arith, ground arith)

pub cap_same :
    (w : AddrType) (t : ℕ) (n m : Memory) (src : ℕ)
    → blob_used w n src ≡ blob_used w m src
    → blob_size w n src ≡ blob_size w m src
    → cap_of w t n src ≡ cap_of w t m src
cap_same w t n m src us cs = elim (Bool-cases (is_var t)) [
  | inl var ↦ rw var cs
  | inr fixed ↦ rw fixed us
]

past_labels : (dst size q : ℕ) → 2 ≤ size → within dst size q ≡ false → (q ≢ dst) × (q ≢ dst + 1)
past_labels dst size q two out = (λ e. ground arith, λ e. ground arith)

within-weaken : (dst n size q : ℕ) → n ≤ size → within dst size q ≡ false → within dst n q ≡ false
within-weaken dst n size q le out = ground arith

-- Copying counted data whose capacity is sized, into space of at least the size that the code
-- computes for the data and apart from it, succeeds: the copy has the type, the attributes, the bytes
-- in use and the size of the data, and nothing outside the space has changed.
pub data_copy-counted :
    (u t dst size_dst src : ℕ) (m : Memory)
    → IsBytes m
    → get08 m src ≡ t
    → is_blob t ≡ true
    → IsSized t m src
    → data_sizeof u m src ≤ size_dst
    → Disjoint dst size_dst src (data_sizeof u m src)
    → (m' : Memory) × (data_copy dst size_dst src (data_sizeof u m src) m ≡ ok dst m')
      × Copied u t dst size_dst src m m'
data_copy-counted u t dst size_dst src m bytes e b sized fits apart =
    let w = arm_at t in
    let n = labelled dst src m in
    let (least, same_size) = sizeof-counted u t m src e b in
    let used = blob_used w m src in
    let cap = cap_of w t m src in
    let us : blob_used w n src ≡ used =
      get-same w (src + 2 + addr_bytes w) m n
        (λ q i. labelled-same dst src q m (ground arith) (ground arith)) in
    let cs : blob_size w n src ≡ blob_size w m src =
      get-same w (src + 2) m n (λ q i. labelled-same dst src q m (ground arith) (ground arith)) in
    let m' = copied w cap dst src used n us in
    let run : data_copy dst size_dst src (data_sizeof u m src) m ≡ ok dst m' =
      data_copy-run dst size_dst src (data_sizeof u m src) m (rw e b) fits
      ∙ ap (λ t. ok dst (copy_blob (arm_at t) (cap_of (arm_at t) t n src) dst src n)) e
      ∙ ap (λ c. ok dst (copy_blob w c dst src n)) (cap_same w t n m src us cs)
      ∙ ap (ok dst) (copy_blob-run w cap dst src used n us) in
    let (l₀, l₁) = labels dst src m bytes (ground arith) in
    let lu = get-lt w (src + 2 + addr_bytes w) m bytes in
    let ls = get-lt w (src + 2) m bytes in
    let room : used + 2 + 2 + 2 * addr_bytes w ≤ size_dst = ground arith in
    let capped : cap ≤ size_dst - (2 + 2 * addr_bytes w) = ground arith in
    let f = copied-fields w cap dst src used n us lu (ground arith) in
    let ty : get08 m' dst ≡ t =
      copied-head w cap dst src used n us dst (omega arith) (omega arith) ∙ l₀ ∙ e in
    (
      m',
      run,
      record {
        type = ty;
        attributes = copied-head w cap dst src used n us (dst + 1) (omega arith) (omega arith) ∙ l₁;
        used = f.0;
        content = λ i lt.
            copied-content w cap dst src used n us i lt
            ∙ labelled-same dst src (c_blob w src + i) m (ground arith) (ground arith);
        size = same_size m' dst ty (ground arith);
        outside = λ q out.
            let (a, b) = past_labels dst size_dst q (omega arith) out in
            copied-outside w cap dst src used n us (size_dst - (2 + 2 * addr_bytes w)) q
              (omega arith) capped (within-weaken dst _ size_dst q (omega arith) out)
            ∙ labelled-same dst src q m a b;
      },
    )
