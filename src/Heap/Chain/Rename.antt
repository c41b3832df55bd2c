-- ===== src/Heap/Chain/Rename.antt =====
-- What putting one block in the place of another does to a doubly linked list.
use msgcore.Prelude.{
  ℕ, ◌+◌, subst, sym, ◌≡◌, ◌≢◌, refl, inl, inr, true, false, ◌||◌, ◌&&◌, not, List, [], ◌∷◌, has,
  length, arith, ◌==◌, if◌then◌else◌, Bool-cases,
}
use msgcore.Heap.{Block, sizenn}
use msgcore.Heap.Chain.{Chain, total, remove, IsDistinct}

-- The block that stands for `q` when `e` replaces `a`.
abbrev pub renamed : ℕ → ℕ → ℕ → ℕ
renamed a e q = if q == a then e else q

abbrev pub rename : ℕ → ℕ → List ℕ → List ℕ
rename a e [] = []
rename a e (x ∷ xs) = renamed a e x ∷ rename a e xs

pub has-rename :
    (a e q : ℕ) (xs : List ℕ)
    → has e xs ≡ false
    → has q (rename a e xs) ≡ ((has q xs && not (q == a)) || (has a xs && (q == e)))
has-rename a e q [] o = refl
has-rename a e q (x ∷ xs) o = ground (arith, has-rename a e q xs)

pub length-rename : (a e : ℕ) (xs : List ℕ) → length (rename a e xs) ≡ length xs
length-rename a e [] = refl
length-rename a e (x ∷ xs) = ground (arith, length-rename a e xs)

total-rename_other :
    (f : ℕ → Block) (a e : ℕ) (xs : List ℕ)
    → has a xs ≡ false
    → total f (rename a e xs) ≡ total f xs
total-rename_other f a e [] o = refl
total-rename_other f a e (x ∷ xs) o = ground (arith, total-rename_other f a e xs)

pub total-rename :
    (f : ℕ → Block) (a e : ℕ) (xs : List ℕ)
    → IsDistinct xs
    → has a xs ≡ true
    → total f (rename a e xs) ≡ total f (remove a xs) + sizenn (f e)
total-rename f a e [] d i = cc
total-rename f a e (x ∷ xs) d i = elim (Bool-cases (x == a)) [
  | inl hit ↦
      let o : has a xs ≡ false = ground arith in ground (arith, total-rename_other f a e xs o)
  | inr miss ↦ let o : has a xs ≡ true = ground arith in ground (arith, total-rename f a e xs d.1 o)
]

-- The links of `q` under its new name are its old links renamed.
pub record Stands (f g : ℕ → Block) (a e q : ℕ) : Type 0 where
  pub prev : (g (renamed a e q)).prev ≡ renamed a e (f q).prev
  pub next : (g (renamed a e q)).next ≡ renamed a e (f q).next

pub Chain-rename :
    (f g : ℕ → Block) (a e : ℕ)
    → a ≢ 0
    → e ≢ 0
    → (p c last : ℕ) (xs : List ℕ) → Chain f p c xs last
    → has e xs ≡ false
    → ((q : ℕ) → has q xs ≡ true → Stands f g a e q)
    → Chain g (renamed a e p) (renamed a e c) (rename a e xs) (renamed a e last)
Chain-rename f g a e za ze p c last [] (e₀, l) o st = (ground arith, ground arith)
Chain-rename f g a e za ze p c last (x ∷ xs) (e₀, ne, out, back, rest) o st =
    let s = st x (ground arith) in
    let sp = s.prev in
    let ih =
      Chain-rename f g a e za ze x (f x).next last xs rest (ground arith)
        (λ q i. st q (ground arith)) in
    (
      ground arith,
      ground arith,
      ground (arith, has-rename a e (renamed a e x) xs),
      ground arith,
      subst (λ y. Chain g (renamed a e x) y (rename a e xs) (renamed a e last)) (sym s.next) ih,
    )
