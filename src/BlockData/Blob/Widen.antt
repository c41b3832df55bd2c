-- ===== src/BlockData/Blob/Widen.antt =====
-- Widening a blob type (P2PmsgVBLock.cpp, `VBLockData_WidenBlob`).
use msgcore.Prelude.{
  ℕ, ◌+◌, ◌-◌, ◌*◌, ◌/◌, ◌%◌, ◌≤◌, ◌<◌, ◌≡◌, ◌⊎◌, ◌↔◌, inl, inr, refl, true, false, some, arith,
  leb, ◌==◌, if◌then◌else◌, Bool-cases, none,
}
use msgcore.BlockData.{is_blob}
use msgcore.BlockData.Blob.{blob_family, blob_max_of, widen_blob, widen_loop}

-- Two types of one family that are read the same way, the second as wide as the first or wider.
abbrev pub Widens : ℕ → ℕ → Type 0
Widens t t' = (t ≤ t') × (t' / 8 ≡ t / 8) × (t' % 2 ≡ t % 2)

-- The greatest count of a type, by its place in the family.
pub max_at :
    (t : ℕ)
    → is_blob t ≡ true
    → blob_max_of t
      ≡ (if t % 8 / 2 == 0 then 0xFF else if t % 8 / 2 == 1 then 0xFFFF else 0xFFFF_FFFF)
unfolding is_blob blob_family blob_max_of
max_at t b = ground arith

-- The place in the family that a widened type takes.
abbrev place : ℕ → ℕ → ℕ
place k n =
    if k / 2 == 0
    then if leb n 0xFF then k else if leb n 0xFFFF then k + 2 else k + 4
    else if k / 2 == 1
    then if leb n 0xFFFF then k else k + 2
    else k

pub blob_iff : (t : ℕ) → (is_blob t ≡ true) ↔ ((16 ≤ t) × (t < 40) × (t % 8 < 6))
unfolding is_blob
blob_iff t = (λ b. ground arith, λ b. ground arith)

family_at : (t : ℕ) → is_blob t ≡ true → blob_family t ≡ some (t - t % 8, t % 8)
unfolding is_blob blob_family
family_at t b = ground arith

loop_at :
    (base k n : ℕ)
    → base % 8 ≡ 0
    → 16 ≤ base
    → base < 40
    → k < 6
    → widen_loop 2 base (k / 2) (k % 2) n * 2 + k % 2 ≡ place k n
unfolding widen_loop
loop_at base k n whole low high six =
    let a =
      max_at (base + k / 2 * 2 + k % 2) ((blob_iff _).1 (omega arith, omega arith, omega arith)) in
    elim (Bool-cases (k / 2 == 2)) [
      | inl top ↦ ground arith
      | inr wider ↦
          let b =
            max_at (base + (k / 2 + 1) * 2 + k % 2)
              ((blob_iff _).1 (ground arith, ground arith, ground arith)) in
          ground arith
    ]

widen_at : (t n : ℕ) → is_blob t ≡ true → widen_blob t n ≡ t - t % 8 + place (t % 8) n
unfolding widen_blob
widen_at t n b =
    let (low, high, six) = (blob_iff t).0 b in
    let l = loop_at (t - t % 8) (t % 8) n (omega arith) (omega arith) (omega arith) six in
    let f = family_at t b in rw (widen_blob, f) (omega arith)

no_family : (t : ℕ) → is_blob t ≡ false → blob_family t ≡ none
unfolding is_blob blob_family
no_family t nb = ground arith

widen_other : (t n : ℕ) → is_blob t ≡ false → widen_blob t n ≡ t
unfolding widen_blob
widen_other t n nb = rw (widen_blob, no_family t nb) refl

-- `t'` is `t` widened for `n` bytes: it counts them, or is the widest of its family, and no other
-- such type that counts them comes before it.
pub record IsWidened (t n t' : ℕ) : Type 0 where
  pub family : Widens t t'
  pub counted : is_blob t' ≡ true
  pub enough : (n ≤ blob_max_of t') ⊎ (blob_max_of t' ≡ 0xFFFF_FFFF)
  pub narrowest : (s : ℕ) → is_blob s ≡ true → Widens t s → n ≤ blob_max_of s → t' ≤ s

-- A counted type is widened within its family, keeps its variable flag, and becomes the narrowest
-- such type, no narrower than before, that can count the bytes; or the widest of the family if none
-- can. Any other type is left alone.
pub widen_blob-ok :
    (t n : ℕ)
    → ((is_blob t ≡ true) × IsWidened t n (widen_blob t n))
      ⊎ ((is_blob t ≡ false) × (widen_blob t n ≡ t))
widen_blob-ok t n = elim (Bool-cases (is_blob t)) [
  | inl b ↦
      let (low, high, six) = (blob_iff t).0 b in
      let at = widen_at t n b in
      let b' = (blob_iff (widen_blob t n)).1 (ground arith, ground arith, ground arith) in
      let most = max_at (widen_blob t n) b' in
      inl (
        b,
        record {
          family = (ground arith, ground arith, ground arith);
          counted = b';
          enough = ground arith;
          narrowest = λ s c wide fits.
              let (low', high', six') = (blob_iff s).0 c in let most' = max_at s c in ground arith;
        },
      )
  | inr nb ↦ inr (nb, widen_other t n nb)
]
