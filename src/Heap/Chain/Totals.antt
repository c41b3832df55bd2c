-- ===== src/Heap/Chain/Totals.antt =====
-- Counts and total sizes of lists of blocks.
use msgcore.Prelude.{ℕ, ◌+◌, ◌≤◌, ◌<◌, ◌≡◌, refl, true, List, [], ◌∷◌, arith, has, length}
use msgcore.Heap.{Block, sizenn}
use msgcore.Heap.Chain.{remove, total}

module _ (f : ℕ → Block) where
  pub total-remove :
      (a : ℕ) (xs : List ℕ) → has a xs ≡ true → total f (remove a xs) + sizenn (f a) ≡ total f xs
  total-remove a [] h = cc
  total-remove a (x ∷ xs) h = ground (arith, total-remove a xs)

  pub length-le-total :
      (xs : List ℕ) → ((q : ℕ) → has q xs ≡ true → 0 < sizenn (f q)) → length xs ≤ total f xs
  length-le-total [] h = omega arith
  length-le-total (x ∷ xs) h = ground (arith, h x, length-le-total xs (λ q i. h q (ground arith)))

  pub total-frame :
      (g : ℕ → Block) (xs : List ℕ)
      → ((q : ℕ) → has q xs ≡ true → sizenn (g q) ≡ sizenn (f q))
      → total g xs ≡ total f xs
  total-frame g [] h = refl
  total-frame g (x ∷ xs) h = ground (arith, h x, total-frame g xs (λ q i. h q (ground arith)))

pub length-remove : (a : ℕ) (xs : List ℕ) → has a xs ≡ true → length (remove a xs) + 1 ≡ length xs
length-remove a [] h = cc
length-remove a (x ∷ xs) h = ground (arith, length-remove a xs)
