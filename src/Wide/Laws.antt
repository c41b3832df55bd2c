-- ===== src/Wide/Laws.antt =====
-- What the stored form of a wide string keeps.
use msgcore.Prelude.{
  ℕ, ◌≤◌, ◌<◌, ◌≡◌, refl, ap, sym, subst, ◌∙◌, inl, inr, Bool, true, false, ◌&&◌, List, [], ◌∷◌,
  length, arith, ltb, Bool-cases,
}
use msgcore.Bytes.Units.{AreUnits}
use msgcore.Wide.{wide_units, store_wide, load_wide, is_high, is_low, high_of, low_of, joined}

abbrev first_low : List ℕ → Bool
first_low [] = false
first_low (u ∷ s) = is_low u

-- Characters that have a stored form of their own: none past the last one, and no high surrogate
-- before a low one.
abbrev pub IsText : List ℕ → Type 0
IsText [] = Unit
IsText (c ∷ s) = (c < 0x11_0000) × ((is_high c && first_low s) ≡ false) × IsText s

load_wide-alone :
    (u : ℕ) (s : List ℕ) → (is_high u && first_low s) ≡ false → load_wide (u ∷ s) ≡ u ∷ load_wide s
unfolding load_wide
load_wide-alone u [] h = refl
load_wide-alone u (l ∷ s) h = rw h refl

-- The first unit is a low surrogate only where the first character is.
first_low-store_wide :
    (u : ℕ) (s : List ℕ)
    → (is_high u && first_low s) ≡ false
    → (is_high u && first_low (store_wide s)) ≡ false
unfolding store_wide
first_low-store_wide u [] h = ground arith
first_low-store_wide u (c ∷ s) h = ground arith

store_wide-one : (c : ℕ) (s : List ℕ) → ltb 0xFFFF c ≡ false → store_wide (c ∷ s) ≡ c ∷ store_wide s
unfolding store_wide
store_wide-one c s narrow = ground arith

store_wide-pair :
    (c : ℕ) (s : List ℕ)
    → ltb 0xFFFF c ≡ true
    → c < 0x11_0000
    → store_wide (c ∷ s) ≡ high_of c ∷ low_of c ∷ store_wide s
unfolding store_wide
store_wide-pair c s wide last = ground arith

load_wide-pair :
    (u l : ℕ) (s : List ℕ)
    → (is_high u && is_low l) ≡ true
    → load_wide (u ∷ l ∷ s) ≡ joined u l ∷ load_wide s
unfolding load_wide
load_wide-pair u l s h = rw h refl

-- A text reads back from its stored form.
pub load_wide-store_wide : (s : List ℕ) → IsText s → load_wide (store_wide s) ≡ s
unfolding store_wide load_wide
load_wide-store_wide [] t = refl
load_wide-store_wide (c ∷ s) (last, apart, rest) =
    let ih = load_wide-store_wide s rest in
    elim (Bool-cases (ltb 0xFFFF c)) [
      | inl wide ↦
          ap load_wide (store_wide-pair c s wide last)
          ∙ load_wide-pair (high_of c) (low_of c) (store_wide s) (ground arith)
          ∙ ground (arith, ih)
      | inr narrow ↦
          ap load_wide (store_wide-one c s narrow)
          ∙ load_wide-alone c (store_wide s) (first_low-store_wide c s apart)
          ∙ ap (λ s. c ∷ s) ih
    ]

-- The count never falls short of the units written, and exceeds them only for a character past the
-- last one.
pub length-store_wide :
    (s : List ℕ)
    → (length (store_wide s) ≤ wide_units s) × (IsText s → length (store_wide s) ≡ wide_units s)
unfolding store_wide wide_units
length-store_wide [] = (omega arith, λ t. refl)
length-store_wide (c ∷ s) =
    let ih = length-store_wide s in (ground (arith, ih), λ t. ground (arith, ih))

-- The units of a text fit 16 bits.
pub store_wide-AreUnits : (s : List ℕ) → IsText s → AreUnits (store_wide s)
unfolding store_wide
store_wide-AreUnits [] t = tt
store_wide-AreUnits (c ∷ s) (last, apart, rest) =
    let ih = store_wide-AreUnits s rest in
    elim (Bool-cases (ltb 0xFFFF c)) [
      | inl wide ↦
          subst AreUnits (sym (store_wide-pair c s wide last)) (ground arith, (ground arith, ih))
      | inr narrow ↦ subst AreUnits (sym (store_wide-one c s narrow)) (ground arith, ih)
    ]
