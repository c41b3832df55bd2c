-- ===== src/BlockData/Copy/Overrun.antt =====
-- Copies of variable strings that are sized by what they use and laid out by their capacity.
use msgcore.Prelude.{ℕ, ◌+◌, ◌-◌, ◌≤◌, ◌<◌, ◌≡◌, ◌⊎◌, ◌*◌, false, refl, ap, subst, ◌∙◌, true, arith}
use msgcore.Width.{addr_bytes}
use msgcore.Bytes.{Memory, ok, get08}
use msgcore.Bytes.Laws.{get-same}
use msgcore.BlockData.{
  by_capacity, data_sizeof_min, is_blob, sizeof_blob, blob_size, blob_used, c_blob, data_sizeof,
}
use msgcore.BlockData.Arms.{arm_at}
use msgcore.BlockData.Copy.{data_copy, copy_blob, is_var}
use msgcore.BlockData.Copy.Counted.{
  Disjoint, labelled, labelled-same, data_copy-run, cap_of, cap_same, copied, copy_blob-run,
  copied-rest, sizeof_uv-counted, measure,
}

open_end : (t : ℕ) → t < 32 → by_capacity t ≡ false
open_end t lt = ground arith

-- The size of a string is that of what is in use, or the least of its mode.
string_size :
    (u t : ℕ) (m : Memory) (p : ℕ)
    → get08 m p ≡ t
    → is_blob t ≡ true
    → t < 32
    → (2 + sizeof_blob (arm_at t) + blob_used (arm_at t) m p ≤ data_sizeof u m p)
      × ((data_sizeof u m p ≡ 2 + sizeof_blob (arm_at t) + blob_used (arm_at t) m p)
          ⊎ (data_sizeof u m p ≡ data_sizeof_min u))
unfolding data_sizeof
string_size u t m p e b lt =
    let uv = sizeof_uv-counted u t m p e b in
    let v : measure t m p ≡ sizeof_blob (arm_at t) + blob_used (arm_at t) m p =
      rw (open_end t lt) refl in
    ground arith

ends_before :
    (dst size used cap w floor : ℕ)
    → (size ≡ 2 + (2 * w + 2) + used) ⊎ (size ≡ floor)
    → used + 2 < cap
    → floor < 2 + 2 * w + cap
    → dst + size < dst + 2 + 2 * w + cap
ends_before dst size used cap w floor most more least = ground arith

-- Copying a string of a variable type, whose capacity passes what is in use and the terminator, and
-- the least space that data takes in its mode, into space of just the size that the code computes
-- for it, which begins apart from the string's own header and counts, does not throw. Yet that
-- space ends before the capacity does, and every byte from its end to the end of the capacity is
-- set to zero, whatever stood there.
pub data_copy-overruns :
    (u t dst src : ℕ) (m : Memory)
    → get08 m src ≡ t
    → is_blob t ≡ true
    → is_var t ≡ true
    → t < 32
    → blob_used (arm_at t) m src + 2 < blob_size (arm_at t) m src
    → data_sizeof_min u < 2 + 2 * addr_bytes (arm_at t) + blob_size (arm_at t) m src
    → Disjoint dst 2 src (2 + sizeof_blob (arm_at t))
    → (m' : Memory) × (data_copy dst (data_sizeof u m src) src (data_sizeof u m src) m ≡ ok dst m')
      × (dst + data_sizeof u m src < c_blob (arm_at t) dst + blob_size (arm_at t) m src)
      × ((q : ℕ)
          → dst + data_sizeof u m src ≤ q
          → q < c_blob (arm_at t) dst + blob_size (arm_at t) m src
          → m' q ≡ 0)
data_copy-overruns u t dst src m e b var string more floor apart =
    let w = arm_at t in
    let n = labelled dst src m in
    let size = data_sizeof u m src in
    let used = blob_used w m src in
    let us : blob_used w n src ≡ used =
      get-same w (src + 2 + addr_bytes w) m n
        (λ q i. labelled-same dst src q m (ground arith) (ground arith)) in
    let cs : blob_size w n src ≡ blob_size w m src =
      get-same w (src + 2) m n (λ q i. labelled-same dst src q m (ground arith) (ground arith)) in
    let run =
      data_copy-run dst size src size m (rw e b) (omega arith)
      ∙ ap (λ t. ok dst (copy_blob (arm_at t) (cap_of (arm_at t) t n src) dst src n)) e
      ∙ ap (λ c. ok dst (copy_blob w c dst src n)) (cap_same w t n m src us cs)
      ∙ ap (λ c. ok dst (copy_blob w c dst src n)) (rw var refl)
      ∙ ap (ok dst) (copy_blob-run w (blob_size w m src) dst src used n us) in
    let (least, most) = string_size u t m src e b string in
    (
      copied w (blob_size w m src) dst src used n us,
      run,
      ends_before dst size used (blob_size w m src) (addr_bytes w) (data_sizeof_min u) most more
          floor,
      λ q low high.
          subst (λ q. copied w (blob_size w m src) dst src used n us q ≡ 0) (omega arith)
            (copied-rest w (blob_size w m src) dst src used n us (q - c_blob w dst) (omega arith)
              (omega arith)),
    )
