-- ===== src/Heap/Chain/Insert.antt =====
-- What one block between two others does to a doubly linked list.
use msgcore.Prelude.{
  ℕ, ◌+◌, ◌≡◌, ◌≢◌, ◌⊎◌, refl, inl, inr, true, false, ◌||◌, List, [], ◌∷◌, has, length, arith, ◌==◌,
  if◌then◌else◌, Bool-cases, subst,
}
use msgcore.Heap.{Block}
use msgcore.Heap.Chain.{Chain, remove, Chain-frame, Chain-last_mem, Chain-prev}

-- `a` in front of `n`, and at the end where the list has no `n`.
abbrev pub insert : ℕ → ℕ → List ℕ → List ℕ
insert n a [] = a ∷ []
insert n a (x ∷ xs) = if x == n then a ∷ x ∷ xs else x ∷ insert n a xs

pub has-insert : (q n a : ℕ) (xs : List ℕ) → has q (insert n a xs) ≡ (has q xs || (q == a))
has-insert q n a [] = ground arith
has-insert q n a (x ∷ xs) = ground (arith, has-insert q n a xs)

pub length-insert : (n a : ℕ) (xs : List ℕ) → length (insert n a xs) ≡ length xs + 1
length-insert n a [] = refl
length-insert n a (x ∷ xs) = ground (arith, length-insert n a xs)

pub remove-insert : (n a : ℕ) (xs : List ℕ) → has a xs ≡ false → remove a (insert n a xs) ≡ xs
remove-insert n a [] o = ground arith
remove-insert n a (x ∷ xs) o = ground (arith, remove-insert n a xs)

-- `b` comes right before `n`: before a block of the list, or at the end, where `n` is null.
abbrev pub Before : (ℕ → Block) → ℕ → List ℕ → ℕ → ℕ → Type 0
Before f last xs b n = ((n ≡ 0) × (b ≡ last)) ⊎ ((has n xs ≡ true) × ((f n).prev ≡ b))

module _ (f g : ℕ → Block) (b a n : ℕ) (pos : a ≢ 0)
    (at : ((g a).prev ≡ b) × ((g a).next ≡ n)) where
  abbrev Between : ℕ → Type 0
  Between q =
      ((g q).prev ≡ (if q == n then a else (f q).prev))
      × ((g q).next ≡ (if q == b then a else (f q).next))

  -- The block in front of the list is the one that `a` comes after exactly if `n` is the list's first.
  next_hop :
      (x c last : ℕ) (xs : List ℕ)
      → Chain f x c xs last
      → has x xs ≡ false
      → Before f last xs b n
      → (g x).next ≡ (if x == b then a else c)
      → (if c == n then a else c) ≡ (g x).next
  next_hop x c last [] h out bef e = ground arith
  next_hop x c last (y ∷ xs) h out bef e =
      let lm = Chain-last_mem f x c last y xs h in
      elim bef [
        | inl (n0, l) ↦ ground arith
        | inr (i, pr) ↦ ground (arith, Chain-prev f x c last n (y ∷ xs) h out i)
      ]

  pub Chain-insert :
      (p c last : ℕ) (xs : List ℕ)
      → Chain f p c xs last
      → has a xs ≡ false
      → has p xs ≡ false
      → p ≢ a
      → Before f last xs b n
      → ((q : ℕ) → has q xs ≡ true → Between q)
      → Chain g p (if c == n then a else c) (insert n a xs) (if n == 0 then a else last)
  Chain-insert p c last [] (c0, l) oa op pa bef by = ground arith
  Chain-insert p c last (x ∷ xs) (e, ne, out, back, rest) oa op pa bef by =
      let bx = by x (ground arith) in
      elim (Bool-cases (x == n)) [
        | inl hit ↦
            let fr = Chain-frame f g x (f x).next last xs rest (λ q i. ground (arith, by q)) in
            ground (arith, fr)
        | inr miss ↦
            let bef' : Before f last xs b n = ground arith in
            let ih =
              Chain-insert x (f x).next last xs rest (ground arith) out (ground arith) bef'
                (λ q i. by q (ground arith)) in
            let hop : (if (f x).next == n then a else (f x).next) ≡ (g x).next =
              next_hop x (f x).next last xs rest out (ground arith) bx.1 in
            let tail : Chain g x (g x).next (insert n a xs) (if n == 0 then a else last) =
              subst (λ k. Chain g x k (insert n a xs) (if n == 0 then a else last)) hop ih in
            ground (arith, has-insert x n a xs, tail)
      ]
