-- ===== src/BlockData/Blob/Store.antt =====
-- Storing a blob in space that was found for it: the steps of `P3PmsgData::c_vBlob` (P2Pmsg.cpp)
-- once the space is there, which are `VBLockData_WidenBlob`, `VBLockData_InitBlob` and
-- `VBLockData_BlobCopy`.
use msgcore.Prelude.{ℕ, ◌+◌, ◌^◌, ◌≤◌, ◌<◌, ◌≡◌, ◌≢◌, refl, ◌∙◌, true, false, arith}
use msgcore.Width.{addr64, addr_limit}
use msgcore.Bytes.{Memory, ok, within, get08}
use msgcore.BlockData.{
  is_blob, sizeof_blob, blob_size, blob_used, c_blob, data_blob_size, data_blob_used, type_sizeof,
}
use msgcore.BlockData.Arms.{arm_at, blob_arm-is_blob, arm_narrow, type_sizeof-room}
use msgcore.BlockData.Blob.{init_blob, blob_copy, blob_max_of}
use msgcore.BlockData.Blob.Fill.{
  Apart, source, filled, blob_copy-run, filled-outside, filled-fields, filled-content,
}
use msgcore.BlockData.Blob.Init.{init_blob-branches}
use msgcore.BlockData.Blob.Widen.{max_at, blob_iff}

-- What storing `n` bytes leaves in the `size` bytes at `p`.
pub record Stored (p t n size pv : ℕ) (m m' : Memory) : Type 0 where
  pub type : get08 m' p ≡ t
  pub used : data_blob_used m' p ≡ n
  pub capacity : n ≤ data_blob_size m' p
  pub content : (i : ℕ) → i < n → m' (c_blob (arm_at t) p + i) ≡ source pv m i
  pub outside : (q : ℕ) → within p size q ≡ false → m' q ≡ m q

arm_limit : (t : ℕ) → is_blob t ≡ true → addr_limit (arm_at t) ≡ blob_max_of t + 1
arm_limit t b = let x = max_at t b in ground arith

counts :
    (m : Memory) (p t : ℕ)
    → get08 m p ≡ t
    → is_blob t ≡ true
    → (data_blob_used m p ≡ blob_used (arm_at t) m p)
      × (data_blob_size m p ≡ blob_size (arm_at t) m p)
unfolding data_blob_used data_blob_size
counts m p t e b =
    let a = blob_arm-is_blob t b in (rw (data_blob_used, e, a) refl, rw (data_blob_size, e, a) refl)

-- A blob that its type can count, stored in space of at least the size that the code computes for
-- them, from bytes that are not in that space: setting it up and filling it succeed, the bytes are
-- there with their count and a capacity for them, and nothing outside the space has changed, the
-- terminator included.
pub blob_copy-init_blob :
    (u p attr t n size pv : ℕ) (m : Memory)
    → is_blob t ≡ true
    → n ≤ blob_max_of t
    → type_sizeof u t n ≤ size
    → size < 2 ^ 63
    → Apart p size pv n
    → (m₁ : Memory) × (m₂ : Memory) × (init_blob p attr t size m ≡ ok tt m₁)
      × (blob_copy p pv n m₁ ≡ ok (c_blob (arm_at t) p) m₂)
      × Stored p t n size pv m m₂
blob_copy-init_blob u p attr t n size pv m b fits enough small apart =
    let w = arm_at t in
    let (low, high, six) = (blob_iff t).0 b in
    let narrow = arm_narrow t in
    let lim = arm_limit t b in
    let room = type_sizeof-room u t n size b (omega arith) enough in
    let ne : w ≢ addr64 = ground arith in
    let a = blob_arm-is_blob t b in
    let (short, wrapped, sound) = init_blob-branches w p attr t size m ne a small in
    let (m₁, run₁, bl) = sound (omega arith) in
    let type : get08 m₁ p ≡ t = bl.type ∙ omega arith in
    let out = bl.outside in
    let f = filled-fields w p pv n m₁ (omega arith) in
    let type' = f.2 ∙ type in
    let (cu, cs) = counts (filled w p pv n m₁) p t type' b in
    let sz = bl.size in
    (
      m₁,
      filled w p pv n m₁,
      run₁,
      blob_copy-run w p pv n m₁ (rw type a),
      record {
        type = type';
        used = cu ∙ f.0;
        capacity = ground arith;
        content = λ i lt.
            let far : Apart p (2 + sizeof_blob w + n) pv n = ground arith in
            let c = filled-content w p pv n m₁ far i lt in let o = out (pv + i) in c ∙ ground arith;
        outside = λ q far. filled-outside w p pv n m₁ q (ground arith) ∙ out q (ground arith);
      },
    )
