-- ===== src/Bytes/Units.antt =====
-- Sequences of 16-bit units in memory.
use msgcore.Prelude.{
  ℕ, zero, suc, ◌+◌, ◌*◌, ◌<◌, ◌≡◌, refl, ◌∙◌, true, false, List, [], ◌∷◌, length, arith,
}
use msgcore.Bytes.{Memory, within, put16, put_units, get_units}

-- Storing units changes their bytes alone.
pub put_units-outside :
    (p q : ℕ) (us : List ℕ) (m : Memory)
    → within p (2 * length us) q ≡ false
    → put_units p us m q ≡ m q
put_units-outside p q [] m out = refl
put_units-outside p q (u ∷ us) m out =
    put_units-outside (p + 2) q us (put16 p u m) (ground arith) ∙ ground arith

abbrev pub AreUnits : List ℕ → Type 0
AreUnits [] = Unit
AreUnits (u ∷ us) = (u < 0x1_0000) × AreUnits us

pub get_units-same :
    (m n : Memory) (p k : ℕ)
    → ((q : ℕ) → within p (2 * k) q ≡ true → n q ≡ m q)
    → get_units n p k ≡ get_units m p k
get_units-same m n p zero same = refl
get_units-same m n p (suc k) same =
    let a = same p (ground arith) in
    let b = same (p + 1) (ground arith) in
    let ih = get_units-same m n (p + 2) k (λ q i. same q (ground arith)) in ground (arith, ih)

pub get_units-put_units :
    (p : ℕ) (us : List ℕ) (m : Memory)
    → AreUnits us
    → get_units (put_units p us m) p (length us) ≡ us
get_units-put_units p [] m fit = refl
get_units-put_units p (u ∷ us) m (lt, fit) =
    let a = put_units-outside (p + 2) p us (put16 p u m) (ground arith) in
    let b = put_units-outside (p + 2) (p + 1) us (put16 p u m) (ground arith) in
    let ih = get_units-put_units (p + 2) us (put16 p u m) fit in ground (arith, ih)
