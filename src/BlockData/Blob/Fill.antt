-- ===== src/BlockData/Blob/Fill.antt =====
-- What setting up a blob and filling it leave.
use msgcore.Prelude.{
  ℕ, ◌+◌, ◌*◌, ◌%◌, ◌≤◌, ◌<◌, ◌≡◌, ◌⊎◌, inl, inr, refl, ◌∙◌, true, false, some, arith, ◌==◌,
  if◌then◌else◌, Bool-cases,
}
use msgcore.Width.{AddrType, addr_bytes, addr_limit}
use msgcore.Bytes.{Memory, ok, within, get08, put08, put, copy_bytes, zero_bytes}
use msgcore.Bytes.Laws.{get-put, get-same, put-outside}
use msgcore.BlockData.{blob_arm, sizeof_blob, blob_size, blob_used, c_blob}
use msgcore.BlockData.Blob.{blob_copy}

-- A copy of `n` bytes into a blob of width `w`.
abbrev pub filled : AddrType → ℕ → ℕ → ℕ → Memory → Memory
filled w p pv n m =
    let m₁ = put08 (p + 1) (get08 m (p + 1) % 0x80) m in
    let at = c_blob w p in
    let m₂ = if pv == 0 then zero_bytes at n m₁ else copy_bytes at pv n m₁ in
    put08 (at + n + 1) 0 (put08 (at + n) 0 (put w (p + 2 + addr_bytes w) n m₂))

pub blob_copy-run :
    (w : AddrType) (p pv n : ℕ) (m : Memory)
    → blob_arm (get08 m p) ≡ some w
    → blob_copy p pv n m ≡ ok (c_blob w p) (filled w p pv n m)
unfolding blob_copy
blob_copy-run w p pv n m arm = rw (blob_copy, arm) refl

-- The bytes that are copied: those at `pv`, or zeros where it is null.
abbrev pub source : ℕ → Memory → ℕ → ℕ
source pv m i = if pv == 0 then 0 else m (pv + i)

-- The bytes at `pv` are not those of the data.
abbrev pub Apart : ℕ → ℕ → ℕ → ℕ → Type 0
Apart p size pv n = (pv ≡ 0) ⊎ (pv + n ≤ p) ⊎ (p + size ≤ pv)

module _ (w : AddrType) (p pv n : ℕ) (m : Memory) where
  pub filled-outside :
      (q : ℕ) → within p (2 + sizeof_blob w + n) q ≡ false → filled w p pv n m q ≡ m q
  filled-outside q out =
      let m₁ = put08 (p + 1) (get08 m (p + 1) % 0x80) m in
      let at = c_blob w p in
      let m₂ = if pv == 0 then zero_bytes at n m₁ else copy_bytes at pv n m₁ in
      let o = put-outside w (p + 2 + addr_bytes w) n q m₂ (ground arith) in ground arith

  -- The memory before the count is stored.
  abbrev moved : Memory
  moved =
      let m₁ = put08 (p + 1) (get08 m (p + 1) % 0x80) m in
      if pv == 0 then zero_bytes (c_blob w p) n m₁ else copy_bytes (c_blob w p) pv n m₁

  moved-head : (q : ℕ) → within (p + 2) (2 * addr_bytes w) q ≡ true → moved q ≡ m q
  moved-head q i = elim (Bool-cases (pv == 0)) [ inl z ↦ ground arith | inr nz ↦ ground arith ]

  pub filled-fields :
      n < addr_limit w
      → (blob_used w (filled w p pv n m) p ≡ n)
        × (blob_size w (filled w p pv n m) p ≡ blob_size w m p)
        × (get08 (filled w p pv n m) p ≡ get08 m p)
  filled-fields fit =
      let a = p + 2 + addr_bytes w in
      let m₃ = put w a n moved in
      let type = put-outside w a n p moved (ground arith) in
      (
        get-same w a m₃ (filled w p pv n m) (λ q i. ground arith) ∙ get-put w a n moved fit,
        get-same w (p + 2) m (filled w p pv n m) (λ q i.
            let o = put-outside w a n q moved (ground arith) in
            let h = moved-head q (ground arith) in ground arith),
        ground arith,
      )

  pub filled-content :
      Apart p (2 + sizeof_blob w + n) pv n
      → (i : ℕ) → i < n
      → filled w p pv n m (c_blob w p + i) ≡ source pv m i
  filled-content apart i lt =
      let a = p + 2 + addr_bytes w in
      let o = put-outside w a n (c_blob w p + i) moved (ground arith) in ground arith
