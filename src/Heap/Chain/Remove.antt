-- ===== src/Heap/Chain/Remove.antt =====
-- Unlinking a block of a doubly linked list.
use msgcore.Prelude.{
  ℕ, ◌≡◌, ◌≢◌, inl, inr, true, false, List, [], ◌∷◌, arith, ◌==◌, has, if◌then◌else◌, Bool-cases,
}
use msgcore.Heap.{Block}
use msgcore.Heap.Chain.{
  Chain, has-remove, Chain-IsDistinct, Chain-not-null, remove, Chain-frame, Chain-last, Chain-next,
  Chain-prev,
}

-- `g` is `f` with `a` bypassed.
abbrev pub Bypass : (ℕ → Block) → (ℕ → Block) → ℕ → Type 0
Bypass f g a =
    (q : ℕ)
    → q ≢ 0
    → q ≢ a
    → ((g q).prev ≡ (if q == (f a).next then (f a).prev else (f q).prev))
      × ((g q).next ≡ (if q == (f a).prev then (f a).next else (f q).next))

module _ (f g : ℕ → Block) (a : ℕ) (by : Bypass f g a) where
  -- The block is the first one.
  relink :
      (p c last : ℕ) (xs : List ℕ)
      → Chain f a c xs last
      → (f a).next ≡ c
      → (f a).prev ≡ p
      → has a xs ≡ false
      → has p xs ≡ false
      → Chain g p c xs (if last == a then p else last)
  relink p c last [] h en ep oa op = ground arith
  relink p c last (x ∷ xs) (e, ne, out, back, rest) en ep oa op =
      let bx = by x (ground arith) (ground arith) in
      let lst = Chain-last f x (f x).next last xs rest in
      let nn = Chain-not-null f x (f x).next last xs rest in
      let fr = Chain-frame f g x (f x).next last xs rest (λ q i. ground (arith, by q)) in
      (e, ne, out, ground arith, ground (arith, fr, lst))

  -- Bypassing a block of the list takes it out of the list.
  pub Chain-remove :
      (p c last : ℕ) (xs : List ℕ)
      → Chain f p c xs last
      → has a xs ≡ true
      → has p xs ≡ false
      → p ≢ a
      → Chain g p
          (if c == a then (f a).next else c)
          (remove a xs)
          (if last == a then (f a).prev else last)
  Chain-remove p c last [] h i op ne = cc
  Chain-remove p c last (x ∷ xs) (e, nz, out, back, rest) i op ne = elim (Bool-cases (x == a)) [
    | inl hit ↦ ground (arith, relink p (f a).next last xs)
    | inr miss ↦
        let ih = Chain-remove x (f x).next last xs rest (ground arith) out (ground arith) in
        let nx = Chain-next f x (f x).next last a xs rest (ground arith) in
        let pv = Chain-prev f x (f x).next last a xs rest out (ground arith) in
        let bx = by x (ground arith) (ground arith) in
        ground (arith, ih, has-remove a x xs (Chain-IsDistinct f x (f x).next last xs rest))
  ]
