-- ===== src/Items/Sort/Place.antt =====
-- Where a name belongs among sorted names: the number of names before it, which the comparisons at
-- every index agree with.
use msgcore.Prelude.{
  ℕ, zero, suc, ◌≤◌, ◌≡◌, ◌⊎◌, inl, inr, Bool, true, false, some, List, [], ◌∷◌, has, length, arith,
  leb, ltb, ◌==◌, if◌then◌else◌, Bool-cases,
}
use msgcore.Items.Goto.Index.{get_elem?, get_elem?-has}
use msgcore.Items.Sort.{Name, name_lt}

-- What the code relies on of the C library's comparison, taken over the shorter of two names: no
-- name comes before itself, and what comes before a name comes before what that one comes before.
pub record Collation (neg : Name → Name → ℕ → Bool) : Type 0 where
  pub irrefl : (x : Name) → name_lt neg x x ≡ false
  pub trans :
      (x y z : Name) → name_lt neg x y ≡ true → name_lt neg y z ≡ true → name_lt neg x z ≡ true

module _ (neg : Name → Name → ℕ → Bool) (co : Collation neg) (name_of : ℕ → Name) where
  abbrev pub lt : Name → Name → Bool
  lt = name_lt neg

  -- Every item's name comes before the names of the items after it.
  abbrev pub IsSorted : List ℕ → Type 0
  IsSorted [] = Unit
  IsSorted (x ∷ xs) = ((q : ℕ) → has q xs ≡ true → lt (name_of x) (name_of q) ≡ true) × IsSorted xs

  -- The comparison tells the name from every name there is: neither is a beginning of the other.
  abbrev pub Compares : Name → List ℕ → Type 0
  Compares n xs = (q : ℕ) → has q xs ≡ true → (lt n (name_of q) ≡ true) ⊎ (lt (name_of q) n ≡ true)

  -- How many names come before.
  abbrev pub rank : Name → List ℕ → ℕ
  rank n [] = 0
  rank n (x ∷ xs) = if lt n (name_of x) then 0 else suc (rank n xs)

  pub rank-le : (n : Name) (xs : List ℕ) → rank n xs ≤ length xs
  rank-le n [] = omega arith
  rank-le n (x ∷ xs) = ground (arith, rank-le n xs)

  lt_asym : (x y : Name) → lt x y ≡ true → lt y x ≡ false
  lt_asym x y h = elim (Bool-cases (lt y x)) [
    | inl k ↦ let c = co.trans x y x h k in let i = co.irrefl x in ground arith
    | inr k ↦ k
  ]

  -- What comes before the first name comes before all.
  pub after :
      (n : Name) (y x : ℕ) (xs : List ℕ)
      → lt n (name_of y) ≡ true
      → (has x xs ≡ true → lt (name_of y) (name_of x) ≡ true)
      → has x (y ∷ xs) ≡ true
      → lt n (name_of x) ≡ true
  after n y x xs h up m = elim (Bool-cases (x == y)) [
    | inl e ↦ let e' : x ≡ y = ground arith in ground arith
    | inr o ↦ co.trans n (name_of y) (name_of x) h (up (ground arith))
  ]

  -- The item at an index is after the name exactly if the index is not below the rank, and before
  -- it exactly if it is.
  pub rank_iff :
      (n : Name) (xs : List ℕ) (i : ℕ) {x : ℕ}
      → IsSorted xs
      → Compares n xs
      → get_elem? xs i ≡ some x
      → (lt n (name_of x) ≡ leb (rank n xs) i) × (lt (name_of x) n ≡ ltb i (rank n xs))
  rank_iff n [] i so c e = cc
  rank_iff n (y ∷ xs) zero {x} so c e =
      let d = c y (ground arith) in
      let e' : y ≡ x = ground arith in let u = lt_asym n (name_of y) in ground arith
  rank_iff n (y ∷ xs) (suc i) {x} so c e = elim (Bool-cases (lt n (name_of y))) [
    | inl before ↦
        let nx = after n y x xs before (so.0 x) (get_elem?-has (y ∷ xs) (suc i) e) in
        let xn = lt_asym n (name_of x) nx in ground arith
    | inr behind ↦ ground (arith, rank_iff n xs i so.1 (λ q m. c q (ground arith)) e)
  ]
