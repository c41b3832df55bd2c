-- ===== src/BlockData/Copy/Scalar.antt =====
-- Copies of scalars.
use msgcore.Prelude.{
  ℕ, ◌+◌, ◌-◌, ◌≤◌, ◌<◌, ◌≡◌, ◌≢◌, inl, inr, refl, ap, ◌∙◌, true, false, some, arith, subst, sym,
  Bool-cases, ltb, ◌==◌, if◌then◌else◌,
}
use msgcore.Bytes.{Memory, ok, within, get08, copy_bytes}
use msgcore.Bytes.Laws.{IsBytes}
use msgcore.BlockData.{sizeof_scalar, bstr08, time32}
use msgcore.BlockData.Copy.{data_copy, moved_scalar}
use msgcore.BlockData.Copy.Counted.{Disjoint, labelled, labelled-same, labels}

below : (t s : ℕ) → sizeof_scalar t ≡ some s → (ltb t bstr08 ≡ true) × ((t == 0) ≡ false)
unfolding sizeof_scalar
below t s e = (ground arith, ground arith)

-- What a copy of a scalar of `s` bytes leaves, of which it moves `k`.
pub record Moved (s k dst src : ℕ) (m m' : Memory) : Type 0 where
  pub type : get08 m' dst ≡ get08 m src
  pub attributes : get08 m' (dst + 1) ≡ get08 m (src + 1)
  pub value : (i : ℕ) → i < k → m' (dst + 2 + i) ≡ m (src + 2 + i)
  pub rest : (i : ℕ) → k ≤ i → m' (dst + 2 + i) ≡ m (dst + 2 + i)
  pub outside : (q : ℕ) → within dst (2 + s) q ≡ false → m' q ≡ m q

inside : (p n i : ℕ) → i < n → within p n (p + i) ≡ true
inside p n i lt = ground arith

copied-in : (dst src n i : ℕ) (m : Memory) → i < n → copy_bytes dst src n m (dst + i) ≡ m (src + i)
copied-in dst src n i m lt =
    let e : src + (dst + i - dst) ≡ src + i = omega arith in rw (inside dst n i lt) (ap m e)

copied-out :
    (dst src n q : ℕ) (m : Memory) → within dst n q ≡ false → copy_bytes dst src n m q ≡ m q
copied-out dst src n q m out = rw out refl

copied-none : (dst src : ℕ) (m : Memory) → copy_bytes dst src 0 m ≡ m
copied-none dst src m = λ i q. copied-out dst src 0 q m (ground arith) i

module _ (s k dst src : ℕ) (m : Memory) (bytes : IsBytes m) (le : k ≤ s)
    (apart : Disjoint dst (2 + s) src (2 + s)) where
  -- Memory once the value is moved.
  abbrev moved : Memory
  moved = copy_bytes (dst + 2) (src + 2) k (labelled dst src m)

  moved-out : (q : ℕ) → within (dst + 2) k q ≡ false → moved q ≡ labelled dst src m q
  moved-out q out = copied-out (dst + 2) (src + 2) k q (labelled dst src m) out

  moved-Moved : Moved s k dst src m moved
  moved-Moved =
      let (l₀, l₁) = labels dst src m bytes (ground arith) in
      record {
        type = moved-out dst (ground arith) ∙ l₀;
        attributes = moved-out (dst + 1) (ground arith) ∙ l₁;
        value = λ i lt.
            copied-in (dst + 2) (src + 2) k i (labelled dst src m) lt
            ∙ labelled-same dst src (src + 2 + i) m (ground arith) (ground arith);
        rest = λ i ge.
            moved-out (dst + 2 + i) (ground arith)
            ∙ labelled-same dst src (dst + 2 + i) m (ground arith) (ground arith);
        outside = λ q out.
            moved-out q (ground arith) ∙ labelled-same dst src q m (ground arith) (ground arith);
      }

scalar-run :
    (dst size_dst src size_src s : ℕ) (m : Memory)
    → sizeof_scalar (get08 m src) ≡ some s
    → get08 m src ≢ time32
    → size_src ≤ size_dst
    → data_copy dst size_dst src size_src m
      ≡ ok dst (copy_bytes (dst + 2) (src + 2) s (labelled dst src m))
unfolding data_copy moved_scalar
scalar-run dst size_dst src size_src s m e ne le =
    let (low, nz) = below (get08 m src) s e in
    let fits : ltb size_dst size_src ≡ false = ground arith in
    let other : (get08 m src == time32) ≡ false = ground arith in
    rw (data_copy, moved_scalar, fits, low, nz, other, e) refl

time-run :
    (dst size_dst src size_src : ℕ) (m : Memory)
    → get08 m src ≡ time32
    → size_src ≤ size_dst
    → data_copy dst size_dst src size_src m ≡ ok dst (labelled dst src m)
unfolding data_copy moved_scalar
time-run dst size_dst src size_src m e le =
    let fits : ltb size_dst size_src ≡ false = ground arith in
    let time : (get08 m src == time32) ≡ true = ground arith in
    let low : ltb (get08 m src) bstr08 ≡ true = ground arith in
    let nz : (get08 m src == 0) ≡ false = ground arith in
    rw (data_copy, moved_scalar, fits, low, nz, time) refl

-- The bytes of a scalar of `s` bytes that a copy moves: all of them, and none of a 32-bit time.
abbrev pub moved_of : ℕ → ℕ → ℕ
moved_of t s = if t == time32 then 0 else s

-- Copying a scalar, to a place of at least its size and apart from it, succeeds, moves the type, the
-- attributes and the value, and changes nothing else; but of a 32-bit time the value is not moved.
pub data_copy-scalar :
    (dst size_dst src size_src s : ℕ) (m : Memory)
    → IsBytes m
    → sizeof_scalar (get08 m src) ≡ some s
    → size_src ≤ size_dst
    → Disjoint dst (2 + s) src (2 + s)
    → (m' : Memory) × (data_copy dst size_dst src size_src m ≡ ok dst m')
      × Moved s (moved_of (get08 m src) s) dst src m m'
data_copy-scalar dst size_dst src size_src s m bytes e le apart =
    elim (Bool-cases (get08 m src == time32)) [
      | inl time ↦
          let k : 0 ≡ moved_of (get08 m src) s = rw time refl in
          (
            moved s 0 dst src m bytes (omega arith) apart,
            time-run dst size_dst src size_src m (ground arith) le
                ∙ ap (ok dst) (sym (copied-none (dst + 2) (src + 2) (labelled dst src m))),
            subst (λ k. Moved s k dst src m (moved s 0 dst src m bytes (omega arith) apart)) k
                (moved-Moved s 0 dst src m bytes (omega arith) apart),
          )
      | inr other ↦
          let k : s ≡ moved_of (get08 m src) s = rw other refl in
          (
            moved s s dst src m bytes (omega arith) apart,
            scalar-run dst size_dst src size_src s m e (ground arith) le,
            subst (λ k. Moved s k dst src m (moved s s dst src m bytes (omega arith) apart)) k
                (moved-Moved s s dst src m bytes (omega arith) apart),
          )
    ]
