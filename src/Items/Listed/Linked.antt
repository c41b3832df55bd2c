-- ===== src/Items/Listed/Linked.antt =====
-- Linking into a container inserts into its sequence.
use msgcore.Prelude.{
  ℕ, ◌+◌, ◌%◌, ◌≤◌, ◌<◌, ◌≡◌, ◌≢◌, ◌⊎◌, inl, inr, true, false, List, has, arith, ◌==◌,
  if◌then◌else◌, Bool-cases, subst, sym, ap, ◌∙◌,
}
use msgcore.Width.{AddrType, addr08, addr16, addr32, addr64, addr_limit}
use msgcore.Heap.Chain.{Chain, Chain-last, Chain-prev, Chain-not-null, Chain-cast, Chain-null_ends}
use msgcore.Heap.Chain.Insert.{insert, Before, Chain-insert, has-insert, length-insert}
use msgcore.Items.{Item, Store, Ends, Ends-map, count_limit, link_limit}
use msgcore.Items.Link.{list_linkin, attr_linkin, desc_linkin}
use msgcore.Items.Link.Splice.{
  Fits, Spliced, list_linkin-Spliced, attr_linkin-Spliced, desc_linkin-Spliced,
}
use msgcore.Items.Listed.{Lists, links}

pub link-lt-addr : (w : AddrType) (a : ℕ) → a < link_limit w → a < addr_limit w
link-lt-addr addr08 a h = h
link-lt-addr addr16 a h = h
link-lt-addr addr32 a h = h
link-lt-addr addr64 a h = omega arith

-- An item that the container does not hold, and that it has room for.
count_fits : (w : AddrType) (n : ℕ) → n < count_limit w → n % count_limit w ≡ n
count_fits addr08 n h = omega arith
count_fits addr16 n h = omega arith
count_fits addr32 n h = omega arith
count_fits addr64 n h = omega arith

pub record Fresh (s : Store) (xs : List ℕ) (a : ℕ) : Type 0 where
  pub pos : a ≢ 0
  pub inside : a ≤ s.size
  pub narrow : a < link_limit s.addr
  pub out : has a xs ≡ false
  pub room : s.count + 1 < count_limit s.addr

-- The state after linking: the container holds `a` in front of `n` besides what it held, and no
-- item of another container has changed.
pub record Inserted (s : Store) (xs : List ℕ) (n a owner : ℕ) (t : Store) : Type 0 where
  pub lists : Lists t (insert n a xs)
  pub parent : (t.items a).parent ≡ owner
  pub addr : t.addr ≡ s.addr
  pub size : t.size ≡ s.size
  pub others : (q : ℕ) → q ≢ 0 → q ≢ a → has q xs ≡ false → t.items q ≡ s.items q

abbrev SBefore : Store → List ℕ → ℕ → ℕ → Type 0
SBefore s xs b n = Before (links s.items) s.last xs b n

module _ (s : Store) (xs : List ℕ) (l : Lists s xs) (a : ℕ) (fr : Fresh s xs a) (b n : ℕ)
    (bef : SBefore s xs b n) where
  -- Both neighbours are null or of the container.
  next_mem : (n ≡ 0) ⊎ (has n xs ≡ true)
  next_mem = elim bef [ inl (n0, e) ↦ inl n0 | inr (i, e) ↦ inr i ]

  prev_mem : (b ≡ 0) ⊎ (has b xs ≡ true)
  prev_mem = elim bef [
    | inl (n0, e) ↦ ground (arith, Chain-last (links s.items) 0 s.first s.last xs l.chain)
    | inr (i, e) ↦ ground (
      arith,
      Chain-prev (links s.items) 0 s.first s.last n xs l.chain
          (Chain-not-null (links s.items) 0 s.first s.last xs l.chain) i,
    )
  ]

  new : Fits s a
  new = record { inside = fr.inside; narrow = link-lt-addr s.addr a fr.narrow }

  known : (q : ℕ) → (q ≡ 0) ⊎ (has q xs ≡ true) → Fits s q × (q ≢ a)
  known q (inl e) =
      let pos = fr.pos in
      let na = link-lt-addr s.addr a fr.narrow in
      (record { inside = ground arith; narrow = ground arith }, λ h. pos (sym h ∙ e))
  known q (inr i) =
      let out = fr.out in
      let lq = l.inside q i in
      let nq = link-lt-addr s.addr q (l.narrow q i) in
      (record { inside = lq; narrow = nq }, λ h. ground arith)

  between :
      (q : ℕ)
      → has q xs ≡ true
      → {i : Item}
      → i ≡ record (s.items q) {
        prev = if q == n then a else (s.items q).prev;
        next = if q == b then a else (s.items q).next;
      }
      → (i.prev ≡ (if q == n then a else (s.items q).prev))
        × (i.next ≡ (if q == b then a else (s.items q).next))
  between q m e = (ap (λ i. i.prev) e, ap (λ i. i.next) e)

  -- The item becomes the first one exactly if it comes before the first one.
  front : (s.first == n) ≡ (b == 0)
  front =
      let nn = Chain-not-null (links s.items) 0 s.first s.last xs l.chain in
      elim bef [
        | inl (n0, e) ↦
            let z = Chain-null_ends (links s.items) s.first s.last xs l.chain in ground arith
        | inr (i, e) ↦ ground (arith, Chain-prev (links s.items) 0 s.first s.last n xs l.chain nn i)
      ]

  -- `a` stands between its neighbours in the new state.
  Spliced-Chain :
      (p : ℕ) (t : Store)
      → Spliced s t p b a n
      → Chain (links t.items) 0 t.first (insert n a xs) t.last
  Spliced-Chain p t sp =
      let it = sp.item in
      let nn = Chain-not-null (links s.items) 0 s.first s.last xs l.chain in
      let ch =
        Chain-insert (links s.items) (links t.items) b a n fr.pos (ground arith, ground arith) 0
          s.first s.last xs l.chain fr.out nn (λ e. fr.pos (sym e)) bef
          (λ q i. between q i (sp.other q (λ e. ground arith) (λ e. ground arith))) in
      let sf = sp.first in
      let sl = sp.last in
      Chain-cast (links t.items) 0 (insert n a xs) (ground (arith, front)) (ground arith) ch

  -- An item that the container does not hold is no neighbour.
  apart :
      (q : ℕ)
      → q ≢ 0
      → q ≢ a
      → has q xs ≡ false
      → {i : Item}
      → i ≡ record (s.items q) {
        prev = if q == n then a else (s.items q).prev;
        next = if q == b then a else (s.items q).next;
      }
      → i ≡ s.items q
  apart q nz na o e = ground (arith, prev_mem, next_mem)

  -- What holds of `a` and of the items there were holds of all items.
  holds :
      (q : ℕ)
      → has q (insert n a xs) ≡ true
      → (P : ℕ → Type 0) → P a
      → (has q xs ≡ true → P q)
      → P q
  holds q i P pa old = elim (Bool-cases (q == a)) [
    | inl e ↦ let e' : a ≡ q = ground arith in subst P e' pa
    | inr e ↦ old (ground (arith, has-insert q n a xs))
  ]

  Spliced-Inserted : (p : ℕ) (t : Store) → Spliced s t p b a n → Inserted s xs n a p t
  Spliced-Inserted p t sp =
      let cnt = sp.count in
      let out = fr.out in
      let nn = Chain-not-null (links s.items) 0 s.first s.last xs l.chain in
      let small = count_fits s.addr (s.count + 1) fr.room in
      let nb : b ≢ a = (known b prev_mem).1 in
      let nx : n ≢ a = (known n next_mem).1 in
      record {
        lists = record {
          chain = Spliced-Chain p t sp;
          count = let c = l.count in ground (arith, length-insert n a xs);
          inside = λ q i.
              holds q i (λ q. q ≤ t.size) (subst (λ z. a ≤ z) (sym sp.size) fr.inside)
                (λ m. subst (λ z. q ≤ z) (sym sp.size) (l.inside q m));
          narrow = λ q i.
              holds q i (λ q. q < link_limit t.addr)
                (subst (λ w. a < link_limit w) (sym sp.addr) fr.narrow)
                (λ m. subst (λ w. q < link_limit w) (sym sp.addr) (l.narrow q m));
          linked = λ q i.
              holds q i (λ q. (t.items q).linked ≡ true) (ap (λ i. i.linked) sp.item)
                (λ m.
                  ap (λ i. i.linked) (sp.other q (λ e. ground arith) (λ e. ground arith))
                  ∙ l.linked q m);
        };
        parent = ap (λ i. i.parent) sp.item;
        addr = sp.addr;
        size = sp.size;
        others = λ q nz na o. apart q nz na o (sp.other q nz na);
      }

  -- Linking an item into a container in front of an item that it holds, or at its end, with the item
  -- that comes before given too, succeeds, and the container then holds the items in that order;
  -- the new item keeps its parent, and no other item outside the container has changed.
  pub list_linkin-inserts :
      Ends (list_linkin b a n s) (λ _ t. Inserted s xs n a (s.items a).parent t)
  list_linkin-inserts =
      Ends-map (list_linkin b a n s) (λ _ t. Spliced s t (s.items a).parent b a n)
        (λ _ t. Inserted s xs n a (s.items a).parent t)
        (list_linkin-Spliced s b a n fr.pos new (known b prev_mem).0 (known n next_mem).0
          (known b prev_mem).1 (known n next_mem).1)
        (λ _ t. Spliced-Inserted (s.items a).parent t)

  module _ (p : ℕ) (np : p < addr_limit s.addr) where
    -- The same for attributes, where the item gets the parent that is given, if the width can hold
    -- it; the narrowing refuses nothing.
    pub attr_linkin-inserts : Ends (attr_linkin p b a n s) (λ _ t. Inserted s xs n a p t)
    attr_linkin-inserts =
        Ends-map (attr_linkin p b a n s) (λ _ t. Spliced s t p b a n) (λ _ t. Inserted s xs n a p t)
          (attr_linkin-Spliced s b a n fr.pos new (known b prev_mem).0 (known n next_mem).0
            (known b prev_mem).1 (known n next_mem).1 p np)
          (λ _ t. Spliced-Inserted p t)

    -- The same for descendants.
    pub desc_linkin-inserts : Ends (desc_linkin p b a n s) (λ _ t. Inserted s xs n a p t)
    desc_linkin-inserts =
        Ends-map (desc_linkin p b a n s) (λ _ t. Spliced s t p b a n) (λ _ t. Inserted s xs n a p t)
          (desc_linkin-Spliced s b a n fr.pos new (known b prev_mem).0 (known n next_mem).0
            (known b prev_mem).1 (known n next_mem).1 p np)
          (λ _ t. Spliced-Inserted p t)
