-- ===== src/Heap/Chain/Append.antt =====
-- What one block behind the last does to a doubly linked list.
use msgcore.Prelude.{
  ℕ, ◌+◌, subst, ◌≡◌, ◌≢◌, refl, true, false, ◌||◌, List, [], ◌∷◌, has, length, arith, ◌==◌,
  if◌then◌else◌,
}
use msgcore.Heap.{Block, sizenn}
use msgcore.Heap.Chain.{Chain, total, Chain-last_mem}

abbrev pub append : List ℕ → ℕ → List ℕ
append [] e = e ∷ []
append (x ∷ xs) e = x ∷ append xs e

pub has-append : (q e : ℕ) (xs : List ℕ) → has q (append xs e) ≡ (has q xs || (q == e))
has-append q e [] = ground arith
has-append q e (x ∷ xs) = ground (arith, has-append q e xs)

pub length-append : (e : ℕ) (xs : List ℕ) → length (append xs e) ≡ length xs + 1
length-append e [] = refl
length-append e (x ∷ xs) = ground (arith, length-append e xs)

pub total-append :
    (f : ℕ → Block) (e : ℕ) (xs : List ℕ) → total f (append xs e) ≡ total f xs + sizenn (f e)
total-append f e [] = ground arith
total-append f e (x ∷ xs) = ground (arith, total-append f e xs)

pub Chain-append :
    (f g : ℕ → Block) (e p c last : ℕ) (xs : List ℕ)
    → Chain f p c xs last
    → has e xs ≡ false
    → e ≢ 0
    → ((q : ℕ)
        → has q xs ≡ true
        → ((g q).prev ≡ (f q).prev) × ((g q).next ≡ (if q == last then e else (f q).next)))
    → ((g e).prev ≡ last) × ((g e).next ≡ 0)
    → Chain g p (if c == 0 then e else c) (append xs e) e
Chain-append f g e p c last [] (c0, l) o nz at (gp, gn) =
    (ground arith, nz, refl, ground arith, (gn, refl))
Chain-append f g e p c last (x ∷ []) (e₀, ne, out, back, (n0, l)) o nz at (gp, gn) =
    let (xp, xn) = at x (ground arith) in
    (
      ground arith,
      ne,
      ground arith,
      ground arith,
      (ground arith, nz, refl, ground arith, (gn, refl)),
    )
Chain-append f g e p c last (x ∷ y ∷ xs) (e₀, ne, out, back, rest) o nz at (gp, gn) =
    let (xp, xn) = at x (ground arith) in
    let (ey, ney, oy, by, r) = rest in
    let lm = Chain-last_mem f x (f x).next last y xs rest in
    let ih =
      Chain-append f g e x (f x).next last (y ∷ xs) rest (ground arith) nz
        (λ q i. at q (ground arith)) (gp, gn) in
    let xl : (x == last) ≡ false = ground arith in
    let hop : (if (f x).next == 0 then e else (f x).next) ≡ (g x).next = ground arith in
    (
      ground arith,
      ne,
      ground (arith, has-append x e (y ∷ xs)),
      ground arith,
      subst (λ k. Chain g x k (append (y ∷ xs) e) e) hop ih,
    )
