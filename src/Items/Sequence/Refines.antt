-- ===== src/Items/Sequence/Refines.antt =====
-- The list of items implements a sequence: each operation has the effect on the sequence that its
-- name says, and so has any run of operations.
use msgcore.Prelude.{
  ℕ, ◌+◌, ◌≤◌, ◌<◌, ◌≡◌, ◌≢◌, refl, inl, inr, true, false, List, [], ◌∷◌, has, length, arith, subst,
  sym, ◌∙◌,
}
use msgcore.Width.{AddrType}
use msgcore.Heap.{Block}
use msgcore.Heap.Chain.{Chain, Chain-last_mem, Chain-not-null, remove}
use msgcore.Heap.Chain.Append.{append}
use msgcore.Heap.Chain.Insert.{insert, Before}
use msgcore.Items.{
  and_then, pure, Store, Ends, Ends-bind, Ends-map, count_limit, link_limit, items_limit,
}
use msgcore.Items.Link.{list_linkin}
use msgcore.Items.Unlink.{list_unlink}
use msgcore.Items.Listed.{Lists, links}
use msgcore.Items.Listed.Linked.{Fresh, Inserted, list_linkin-inserts}
use msgcore.Items.Listed.Unlinked.{Removed, unlink-removes}
use msgcore.Items.Sequence.{
  add_list_head, add_list_tail, drop_head, drop_tail, delete_item, truncate, has_items, Op,
  push_front, push_back, pop_front, pop_back, erase, perform, perform_all,
}

abbrev pub tail : List ℕ → List ℕ
tail [] = []
tail (x ∷ xs) = xs

abbrev pub init : List ℕ → List ℕ
init [] = []
init (x ∷ []) = []
init (x ∷ y ∷ xs) = x ∷ init (y ∷ xs)

-- What an operation does to the sequence.
abbrev pub effect : Op → List ℕ → List ℕ
effect (push_front a) xs = a ∷ xs
effect (push_back a) xs = append xs a
effect pop_front xs = tail xs
effect pop_back xs = init xs
effect (erase a) xs = remove a xs

-- A new item is one of the image that the sequence does not have and has room for.
abbrev pub Addable : AddrType → ℕ → ℕ → List ℕ → Type 0
Addable w size a xs =
    (a ≢ 0) × (a ≤ size) × (a < link_limit w) × (has a xs ≡ false) × (length xs + 1 < count_limit w)

-- Where an operation may be called: there is an item to take, and the count is one that the
-- subtraction leaves in range.
abbrev pub Allowed : AddrType → ℕ → Op → List ℕ → Type 0
Allowed w size (push_front a) xs = Addable w size a xs
Allowed w size (push_back a) xs = Addable w size a xs
Allowed w size pop_front xs = (0 < length xs) × (length xs ≤ items_limit w)
Allowed w size pop_back xs = (0 < length xs) × (length xs ≤ items_limit w)
Allowed w size (erase a) xs = (has a xs ≡ true) × (length xs ≤ items_limit w)

abbrev pub effects : List Op → List ℕ → List ℕ
effects [] xs = xs
effects (o ∷ os) xs = effects os (effect o xs)

abbrev pub AllAllowed : AddrType → ℕ → List Op → List ℕ → Type 0
AllAllowed w size [] xs = Unit
AllAllowed w size (o ∷ os) xs = Allowed w size o xs × AllAllowed w size os (effect o xs)

-- The container holds the sequence, in an image of this width and size.
pub record Holds (w : AddrType) (size : ℕ) (xs : List ℕ) (s : Store) : Type 0 where
  pub lists : Lists s xs
  pub addr : s.addr ≡ w
  pub bytes : s.size ≡ size

insert-first :
    (f : ℕ → Block) (c last a : ℕ) (xs : List ℕ) → Chain f 0 c xs last → insert c a xs ≡ a ∷ xs
insert-first f c last a [] h = refl
insert-first f c last a (x ∷ xs) h = ground arith

insert-null : (a : ℕ) (xs : List ℕ) → has 0 xs ≡ false → insert 0 a xs ≡ append xs a
insert-null a [] h = refl
insert-null a (x ∷ xs) h = ground (arith, insert-null a xs)

remove-first :
    (f : ℕ → Block) (c last : ℕ) (xs : List ℕ)
    → Chain f 0 c xs last
    → 0 < length xs
    → remove c xs ≡ tail xs
remove-first f c last [] h k = refl
remove-first f c last (x ∷ xs) h k = ground arith

remove-last :
    (f : ℕ → Block) (p c last : ℕ) (xs : List ℕ) → Chain f p c xs last → remove last xs ≡ init xs
remove-last f p c last [] h = refl
remove-last f p c last (x ∷ []) h = ground arith
remove-last f p c last (x ∷ y ∷ xs) (e, nz, out, back, rest) = ground (
  arith,
  remove-last f x (f x).next last (y ∷ xs) rest,
  Chain-last_mem f x (f x).next last y xs rest,
)

first_mem :
    (f : ℕ → Block) (c last : ℕ) (xs : List ℕ)
    → Chain f 0 c xs last
    → 0 < length xs
    → has c xs ≡ true
first_mem f c last [] h k = absurd (omega arith)
first_mem f c last (x ∷ xs) h k = ground arith

last_mem :
    (f : ℕ → Block) (c last : ℕ) (xs : List ℕ)
    → Chain f 0 c xs last
    → 0 < length xs
    → has last xs ≡ true
last_mem f c last [] h k = absurd (omega arith)
last_mem f c last (x ∷ xs) h k = Chain-last_mem f 0 c last x xs h

first-Before :
    (f : ℕ → Block) (c last : ℕ) (xs : List ℕ) → Chain f 0 c xs last → Before f last xs 0 c
first-Before f c last [] h = inl (h.0, sym h.1)
first-Before f c last (x ∷ xs) h = inr (ground arith, ground arith)

module _ (w : AddrType) (size : ℕ) (xs : List ℕ) (s : Store) (h : Holds w size xs s) where
  l : Lists s xs
  l = h.lists

  fresh : (a : ℕ) → Addable w size a xs → Fresh s xs a
  fresh a (nz, le, lt, out, room) = record {
    pos = nz;
    inside = subst (λ z. a ≤ z) (sym h.bytes) le;
    narrow = subst (λ v. a < link_limit v) (sym h.addr) lt;
    out = out;
    room =
        let c = l.count in
        subst (λ v. s.count + 1 < count_limit v) (sym h.addr)
          (subst (λ k. k + 1 < count_limit w) (sym c) room);
  }

  few : length xs ≤ items_limit w → s.count ≤ items_limit s.addr
  few le =
      subst (λ v. s.count ≤ items_limit v) (sym h.addr)
        (subst (λ k. k ≤ items_limit w) (sym l.count) le)

  Inserted-Holds :
      (n a o : ℕ) (ys : List ℕ) (t : Store)
      → insert n a xs ≡ ys
      → Inserted s xs n a o t
      → Holds w size ys t
  Inserted-Holds n a o ys t e i = record {
    lists = subst (λ v. Lists t v) e i.lists;
    addr = i.addr ∙ h.addr;
    bytes = i.size ∙ h.bytes;
  }

  Removed-Holds :
      (a : ℕ) (ys : List ℕ) (t : Store) → remove a xs ≡ ys → Removed s xs a t → Holds w size ys t
  Removed-Holds a ys t e r = record {
    lists = subst (λ v. Lists t v) e r.lists;
    addr = r.addr ∙ h.addr;
    bytes = r.size ∙ h.bytes;
  }

  -- A new item is put in.
  adds :
      (b a n : ℕ) (ys : List ℕ)
      → Addable w size a xs
      → Before (links s.items) s.last xs b n
      → insert n a xs ≡ ys
      → Ends (list_linkin b a n s) (λ _ t. Holds w size ys t)
  adds b a n ys al bef e =
      Ends-map (list_linkin b a n s) (λ _ t. Inserted s xs n a (s.items a).parent t)
        (λ _ t. Holds w size ys t) (list_linkin-inserts s xs l a (fresh a al) b n bef)
        (λ _ t i. Inserted-Holds n a (s.items a).parent ys t e i)

  -- An item of the sequence is taken out.
  takes :
      (a : ℕ) (ys : List ℕ)
      → has a xs ≡ true
      → length xs ≤ items_limit w
      → remove a xs ≡ ys
      → Ends (and_then (list_unlink a s) (λ _. pure tt)) (λ _ t. Holds w size ys t)
  takes a ys i le e =
      Ends-bind (list_unlink a s) (λ _. pure tt) (λ r t. (r ≡ a) × Removed s xs a t)
        (λ _ t. Holds w size ys t) (unlink-removes s xs l (few le) a i).0
        (λ _ t r. Removed-Holds a ys t e r.1)

  -- Each operation, where it is allowed, succeeds and has its effect on the sequence.
  pub perform-refines :
      (o : Op) → Allowed w size o xs → Ends (perform o s) (λ _ t. Holds w size (effect o xs) t)
  unfolding perform add_list_head add_list_tail drop_head drop_tail delete_item
  perform-refines (push_front a) al =
      adds 0 a s.first (a ∷ xs) al (first-Before (links s.items) s.first s.last xs l.chain)
        (insert-first (links s.items) s.first s.last a xs l.chain)
  perform-refines (push_back a) al =
      adds s.last a 0 (append xs a) al (inl (refl, refl))
        (insert-null a xs (Chain-not-null (links s.items) 0 s.first s.last xs l.chain))
  perform-refines pop_front al =
      takes s.first (tail xs) (first_mem (links s.items) s.first s.last xs l.chain al.0) al.1
        (remove-first (links s.items) s.first s.last xs l.chain al.0)
  perform-refines pop_back al =
      takes s.last (init xs) (last_mem (links s.items) s.first s.last xs l.chain al.0) al.1
        (remove-last (links s.items) 0 s.first s.last xs l.chain)
  perform-refines (erase a) al = takes a (remove a xs) al.0 al.1 refl

-- The first operation of the loop.
perform-refines_head :
    (w : AddrType) (size x : ℕ) (xs : List ℕ) (s : Store)
    → Holds w size (x ∷ xs) s
    → length (x ∷ xs) ≤ items_limit w
    → Ends (drop_head s) (λ _ t. Holds w size xs t)
unfolding perform
perform-refines_head w size x xs s h le =
    perform-refines w size (x ∷ xs) s h pop_front (ground arith, le)

-- Any run of operations, each allowed where it is performed, succeeds, and the container then holds
-- the sequence that their effects give.
pub perform_all-refines :
    (w : AddrType) (size : ℕ) (os : List Op) (xs : List ℕ) (s : Store)
    → Holds w size xs s
    → AllAllowed w size os xs
    → Ends (perform_all os s) (λ _ t. Holds w size (effects os xs) t)
unfolding perform_all
perform_all-refines w size [] xs s h al = h
perform_all-refines w size (o ∷ os) xs s h al =
    Ends-bind (perform o s) (λ _. perform_all os) (λ _ t. Holds w size (effect o xs) t)
      (λ _ t. Holds w size (effects os (effect o xs)) t) (perform-refines w size xs s h o al.0)
      (λ _ t k. perform_all-refines w size os (effect o xs) t k al.1)

-- Truncating, with a turn for each item, empties the container; the count has to be positive as a
-- signed number.
pub truncate-empties :
    (w : AddrType) (size : ℕ) (xs : List ℕ) (s : Store)
    → Holds w size xs s
    → length xs ≤ items_limit w
    → length xs < 0x8000_0000
    → Ends (truncate (length xs) s) (λ _ t. Holds w size [] t × (has_items t ≡ false))
unfolding truncate
truncate-empties w size [] s h le lt = (h, let c = h.lists.count in ground arith)
truncate-empties w size (x ∷ xs) s h le lt =
    let c = h.lists.count in
    let go : has_items s ≡ true = ground arith in
    let k : Ends (and_then (drop_head s) (λ _. truncate (length xs)))
        (λ _ t. Holds w size [] t × (has_items t ≡ false)) =
      Ends-bind (drop_head s) (λ _. truncate (length xs)) (λ _ t. Holds w size xs t)
        (λ _ t. Holds w size [] t × (has_items t ≡ false)) (perform-refines_head w size x xs s h le)
        (λ _ t h'. truncate-empties w size xs t h' (ground arith) (ground arith)) in
    ground arith
