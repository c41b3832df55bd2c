-- ===== src/Tests/Names.antt =====
-- A comparison of names by their code units, over a length, which is as the code relies on.
use msgcore.Prelude.{
  ℕ, zero, suc, ◌≤◌, ◌≡◌, ◌⊎◌, refl, Bool, true, false, [], ◌∷◌, length, arith, ltb, ◌==◌,
  if◌then◌else◌, sym, ◌∙◌,
}
use msgcore.Items.Sort.{Name, name_lt, common_size}
use msgcore.Items.Sort.Place.{Collation}

unfoldable pub code_neg : Name → Name → ℕ → Bool
code_neg x y zero = false
code_neg [] y (suc n) = false
code_neg (a ∷ x) [] (suc n) = false
code_neg (a ∷ x) (b ∷ y) (suc n) =
    let rest = code_neg x y n in if ltb a b then true else if a == b then rest else false

-- Over the whole of the shorter name.
whole : Name → Name → Bool
whole [] y = false
whole (a ∷ x) [] = false
whole (a ∷ x) (b ∷ y) =
    let rest = whole x y in if ltb a b then true else if a == b then rest else false

code_neg-whole : (x y : Name) (n : ℕ) → (length x ≤ n) ⊎ (length y ≤ n) → code_neg x y n ≡ whole x y
unfolding code_neg whole
code_neg-whole [] y zero h = refl
code_neg-whole (a ∷ x) [] zero h = refl
code_neg-whole (a ∷ x) (b ∷ y) zero h = ground arith
code_neg-whole [] y (suc n) h = refl
code_neg-whole (a ∷ x) [] (suc n) h = refl
code_neg-whole (a ∷ x) (b ∷ y) (suc n) h = ground (arith, code_neg-whole x y n)

name_lt-whole : (x y : Name) → name_lt code_neg x y ≡ whole x y
unfolding name_lt
name_lt-whole x y = code_neg-whole x y (common_size code_neg x y) (ground arith)

whole_irrefl : (x : Name) → whole x x ≡ false
unfolding whole
whole_irrefl [] = refl
whole_irrefl (a ∷ x) = ground (arith, whole_irrefl x)

whole_trans : (x y z : Name) → whole x y ≡ true → whole y z ≡ true → whole x z ≡ true
unfolding whole
whole_trans [] y z h k = h
whole_trans (a ∷ x) [] z h k = cc
whole_trans (a ∷ x) (b ∷ y) [] h k = cc
whole_trans (a ∷ x) (b ∷ y) (c ∷ z) h k = ground (arith, whole_trans x y z)

pub code_neg-Collation : Collation code_neg
code_neg-Collation = record {
  irrefl = λ x. name_lt-whole x x ∙ whole_irrefl x;
  trans = λ x y z h k.
      name_lt-whole x z
      ∙ whole_trans x y z (sym (name_lt-whole x y) ∙ h) (sym (name_lt-whole y z) ∙ k);
}
