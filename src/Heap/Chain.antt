-- ===== src/Heap/Chain.antt =====
-- Doubly linked lists of blocks: the links of the blocks named by a list, from a first block to a
-- last one, and what unlinking, replacing, adding in front and behind do to them.
pub mod Append
pub mod Insert
pub mod Remove
pub mod Rename
pub mod Totals
use msgcore.Prelude.{
  ℕ, ◌+◌, ◌≡◌, refl, ◌≢◌, ◌⊎◌, inl, inr, Bool, true, false, ◌&&◌, not, List, [], ◌∷◌, ◌++◌, arith,
  subst, ◌==◌, has, if◌then◌else◌, length, Bool-cases,
}
use msgcore.Heap.{Block, sizenn}

-- From `cur`, entered from `prev`, the links run through the distinct blocks of the list to `last`.
abbrev pub Chain : (ℕ → Block) → ℕ → ℕ → List ℕ → ℕ → Type 0
Chain f prev cur [] last = (cur ≡ 0) × (last ≡ prev)
Chain f prev cur (x ∷ xs) last =
    (cur ≡ x) × (x ≢ 0) × (has x xs ≡ false) × ((f x).prev ≡ prev) × Chain f x (f x).next xs last

abbrev pub remove : ℕ → List ℕ → List ℕ
remove a [] = []
remove a (x ∷ xs) = if x == a then xs else x ∷ remove a xs

-- No block twice.
abbrev pub IsDistinct : List ℕ → Type 0
IsDistinct [] = Unit
IsDistinct (x ∷ xs) = (has x xs ≡ false) × IsDistinct xs

-- The total of the sizes of the blocks.
abbrev pub total : (ℕ → Block) → List ℕ → ℕ
total f [] = 0
total f (x ∷ xs) = sizenn (f x) + total f xs

-- The links of the blocks of the list are the same in both.
abbrev pub SameLinks : (ℕ → Block) → (ℕ → Block) → List ℕ → Type 0
SameLinks f g xs = (q : ℕ) → has q xs ≡ true → ((g q).prev ≡ (f q).prev) × ((g q).next ≡ (f q).next)

pub Chain-frame :
    (f g : ℕ → Block) (p c last : ℕ) (xs : List ℕ)
    → Chain f p c xs last
    → SameLinks f g xs
    → Chain g p c xs last
Chain-frame f g p c last [] h same = h
Chain-frame f g p c last (x ∷ xs) (e, ne, out, back, rest) same =
    let sx = same x (ground arith) in
    (
      e,
      ne,
      out,
      ground arith,
      ground (arith, Chain-frame f g x (f x).next last xs rest (λ q i. same q (ground arith))),
    )

-- The last block is the one before the list, or one of the list.
pub Chain-last :
    (f : ℕ → Block) (p c last : ℕ) (xs : List ℕ)
    → Chain f p c xs last
    → (last ≡ p) ⊎ (has last xs ≡ true)
Chain-last f p c last [] h = inl h.1
Chain-last f p c last (x ∷ xs) (e, ne, out, back, rest) =
    ground (arith, Chain-last f x (f x).next last xs rest)

-- The first block is null or of the list.
pub Chain-first :
    (f : ℕ → Block) (p c last : ℕ) (xs : List ℕ) → Chain f p c xs last → (c ≡ 0) ⊎ (has c xs ≡ true)
Chain-first f p c last [] h = inl h.0
Chain-first f p c last (x ∷ xs) (e, ne, out, back, rest) = inr (ground arith)

-- Null is in no list of blocks.
pub Chain-not-null :
    (f : ℕ → Block) (p c last : ℕ) (xs : List ℕ) → Chain f p c xs last → has 0 xs ≡ false
Chain-not-null f p c last [] h = refl
Chain-not-null f p c last (x ∷ xs) (e, ne, out, back, rest) =
    ground (arith, Chain-not-null f x (f x).next last xs rest)

-- The successor of a block of the list is null, or of the list and not its first block.
pub Chain-next :
    (f : ℕ → Block) (p c last a : ℕ) (xs : List ℕ)
    → Chain f p c xs last
    → has a xs ≡ true
    → ((f a).next ≡ 0) ⊎ ((has (f a).next xs ≡ true) × ((f a).next ≢ c) × ((f (f a).next).prev ≡ a))
Chain-next f p c last a [] h i = cc
Chain-next f p c last a (x ∷ []) (e, ne, out, back, rest) i = ground arith
Chain-next f p c last a (x ∷ y ∷ xs) (e, ne, out, back, rest) i =
    ground (arith, Chain-next f x (f x).next last a (y ∷ xs) rest)

-- The predecessor of a block is the entry, exactly if the block is the first one, or of the list.
pub Chain-prev :
    (f : ℕ → Block) (p c last a : ℕ) (xs : List ℕ)
    → Chain f p c xs last
    → has p xs ≡ false
    → has a xs ≡ true
    → ((c ≡ a) × ((f a).prev ≡ p))
      ⊎ ((c ≢ a) × (has (f a).prev xs ≡ true) × ((f a).prev ≢ p) × ((f (f a).prev).next ≡ a))
Chain-prev f p c last a [] h out' i = cc
Chain-prev f p c last a (x ∷ xs) (e, ne, out, back, rest) out' i =
    ground (arith, Chain-prev f x (f x).next last a xs rest)

-- A block's links name neither the block itself nor one block twice.
pub Chain-links :
    (f : ℕ → Block) (p c last a : ℕ) (xs : List ℕ)
    → Chain f p c xs last
    → has p xs ≡ false
    → has a xs ≡ true
    → ((f a).next ≢ a) × ((f a).prev ≢ a) × ((f a).prev ≡ (f a).next → (f a).next ≡ 0)
Chain-links f p c last a [] h out' i = cc
Chain-links f p c last a (x ∷ xs) (e, ne, out, back, rest) out' i =
    ground (
      arith,
      Chain-first f x (f x).next last xs rest,
      Chain-links f x (f x).next last a xs rest out,
    )

-- A list that is not empty has its last block.
pub Chain-last_mem :
    (f : ℕ → Block) (p c last x : ℕ) (xs : List ℕ)
    → Chain f p c (x ∷ xs) last
    → has last (x ∷ xs) ≡ true
Chain-last_mem f p c last x [] h = ground arith
Chain-last_mem f p c last x (y ∷ xs) (e, ne, out, back, rest) =
    ground (arith, Chain-last_mem f x (f x).next last y xs rest)

-- The head and the tail of the list are null together.
pub Chain-null_ends :
    (f : ℕ → Block) (c last : ℕ) (xs : List ℕ) → Chain f 0 c xs last → (c == 0) ≡ (last == 0)
Chain-null_ends f c last [] h = ground arith
Chain-null_ends f c last (x ∷ xs) h =
    let z = Chain-not-null f 0 c last (x ∷ xs) h in
    let m = Chain-last_mem f 0 c last x xs h in
    let first : c ≢ 0 = ground arith in let nl : last ≢ 0 = ground arith in ground arith

-- Only the last block has no successor.
pub Chain-end :
    (f : ℕ → Block) (p c last a : ℕ) (xs : List ℕ)
    → Chain f p c xs last
    → has a xs ≡ true
    → last ≡ a
    → (f a).next ≡ 0
Chain-end f p c last a [] h i e = cc
Chain-end f p c last a (x ∷ []) (e', ne, out, back, rest) i e = ground arith
Chain-end f p c last a (x ∷ y ∷ xs) (e', ne, out, back, rest) i e = ground (
  arith,
  Chain-end f x (f x).next last a (y ∷ xs) rest,
  Chain-last_mem f x (f x).next last y xs rest,
)

pub Chain-cast :
    (f : ℕ → Block) (p : ℕ) {c d k l : ℕ} (xs : List ℕ)
    → c ≡ d
    → k ≡ l
    → Chain f p c xs k
    → Chain f p d xs l
Chain-cast f p {d} {k} xs e e' h =
    subst (λ y. Chain f p d xs y) e' (subst (λ y. Chain f p y xs k) e h)

pub Chain-IsDistinct :
    (f : ℕ → Block) (p c last : ℕ) (xs : List ℕ) → Chain f p c xs last → IsDistinct xs
Chain-IsDistinct f p c last [] h = tt
Chain-IsDistinct f p c last (x ∷ xs) (e, ne, out, back, rest) =
    (out, Chain-IsDistinct f x (f x).next last xs rest)

-- Removing a block from a list without repeats leaves exactly the others.
pub has-remove :
    (a q : ℕ) (xs : List ℕ) → IsDistinct xs → has q (remove a xs) ≡ (has q xs && not (q == a))
has-remove a q [] d = refl
has-remove a q (x ∷ xs) d = ground (arith, has-remove a q xs)

pub IsDistinct-remove : (a : ℕ) (xs : List ℕ) → IsDistinct xs → IsDistinct (remove a xs)
IsDistinct-remove a [] d = tt
IsDistinct-remove a (x ∷ xs) d = ground (arith, has-remove a x xs, IsDistinct-remove a xs)
