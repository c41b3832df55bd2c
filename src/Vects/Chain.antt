-- ===== src/Vects/Chain.antt =====
-- Chains of continuation blocks, and what storing a slot does to them.
use msgcore.Prelude.{
  ℕ, zero, suc, ◌%◌, ◌<◌, ◌≡◌, ◌≢◌, ◌⊎◌, inl, inr, refl, sym, ap, ◌∙◌, Bool, true, false, Option,
  none, some, ◌||◌, List, [], ◌∷◌, has, arith, Bool-cases, ◌==◌, update,
}
use msgcore.Width.{AddrType, addr_limit}
use msgcore.Vects.{
  Vect, Vects, empty, set_alloc, set_extra, modify_at, get_walk, set_walk, continued,
}

-- From the block at `b`, the continuation blocks are `l`, all of them different and taken.
abbrev pub IsChain : Vects → ℕ → List ℕ → Type 0
IsChain s b [] = ((s.at b).extra ≡ 0) × (s.taken b ≡ true)
IsChain s b (n ∷ l) =
    ((s.at b).extra ≡ n) × (n ≢ 0) × (s.taken b ≡ true) × (has b (n ∷ l) ≡ false) × IsChain s n l

get-end : (q b r : ℕ) (s : Vects) → (s.at b).extra ≡ 0 → get_walk (suc q) b r s ≡ 0
unfolding get_walk
get-end q b r s e = rw (get_walk, e) refl

get-onward :
    (q b n r : ℕ) (s : Vects)
    → (s.at b).extra ≡ n
    → n ≢ 0
    → get_walk (suc q) b r s ≡ get_walk q n r s
unfolding get_walk
get-onward q b n r s e nz = let z : (n == 0) ≡ false = ground arith in rw (get_walk, e, z) refl

pub get-here : (b r : ℕ) (s : Vects) → get_walk 0 b r s ≡ (s.at b).slot r
unfolding get_walk
get-here b r s = refl

contrary : (x : Bool) → x ≡ true → ¬ (x ≡ false)
contrary x t f = ground arith

there : (x b : ℕ) (l : List ℕ) → has x l ≡ true → has x (b ∷ l) ≡ true
there x b l h = ground arith

here : (b : ℕ) (l : List ℕ) → has b (b ∷ l) ≡ true
here b l = ground arith

-- `t` has what `s` has at the blocks of a list.
abbrev pub SameOn : List ℕ → Vects → Vects → Type 0
SameOn l s t = (x : ℕ) → has x l ≡ true → (t.at x ≡ s.at x) × (t.taken x ≡ s.taken x)

get_walk-same :
    (q b r : ℕ) (l : List ℕ) (s t : Vects)
    → IsChain s b l
    → SameOn (b ∷ l) s t
    → get_walk q b r t ≡ get_walk q b r s
get_walk-same zero b r l s t c same =
    get-here b r t ∙ ap (λ v. v.slot r) (same b (here b l)).0 ∙ sym (get-here b r s)
get_walk-same (suc q) b r [] s t (e, k) same =
    get-end q b r t (ap (λ v. v.extra) (same b (here b [])).0 ∙ e) ∙ sym (get-end q b r s e)
get_walk-same (suc q) b r (n ∷ l) s t (e, nz, k, d, c) same =
    get-onward q b n r t (ap (λ v. v.extra) (same b (here b (n ∷ l))).0 ∙ e) nz
    ∙ get_walk-same q n r l s t c (λ x h. same x (there x b (n ∷ l) h))
    ∙ sym (get-onward q b n r s e nz)

IsChain-same :
    (b : ℕ) (l : List ℕ) (s t : Vects) → IsChain s b l → SameOn (b ∷ l) s t → IsChain t b l
IsChain-same b [] s t (e, k) same =
    let (v, u) = same b (here b []) in (ap (λ v. v.extra) v ∙ e, u ∙ k)
IsChain-same b (n ∷ l) s t (e, nz, k, d, c) same =
    let (v, u) = same b (here b (n ∷ l)) in
    (
      ap (λ v. v.extra) v ∙ e,
      nz,
      u ∙ k,
      d,
      IsChain-same n l s t c (λ x h. same x (there x b (n ∷ l) h)),
    )

-- What storing `a` in slot `r` after `q` continuations from `b` leaves, where the chain is `l`.
pub record Sets (w : AddrType) (q b r a : ℕ) (l : List ℕ) (s t : Vects) : Type 0 where
  pub chain : (k : List ℕ) × IsChain t b k × ((x : ℕ) → s.taken x ≡ true → has x k ≡ has x l)
  pub outside : (x : ℕ) → s.taken x ≡ true → has x (b ∷ l) ≡ false → t.at x ≡ s.at x
  pub taken : (x : ℕ) → s.taken x ≡ true → t.taken x ≡ true
  pub items : (t.at b).items ≡ (s.at b).items
  pub stored : get_walk q b r t ≡ a % addr_limit w
  pub others : (p k : ℕ) → (p ≢ q) ⊎ (k ≢ r) → get_walk p b k t ≡ get_walk p b k s

pub own : (f : ℕ → Vect) (b : ℕ) (v : Vect) → update f b v b ≡ v
own f b v = let z : (b == b) ≡ true = ground arith in rw z refl

pub foreign : (f : ℕ → Vect) (b x : ℕ) (v : Vect) → (x == b) ≡ false → update f b v x ≡ f x
foreign f b x v z = rw z refl

is_eq : (x b : ℕ) → (x == b) ≡ true → x ≡ b
is_eq x b z = ground arith

not_head : (x b : ℕ) (l : List ℕ) → has x (b ∷ l) ≡ false → ((x == b) ≡ false) × (has x l ≡ false)
not_head x b l out = (ground arith, ground arith)

-- A block that is not of a list is none of its blocks.
pub apart : (x b : ℕ) (l : List ℕ) → has b l ≡ false → has x l ≡ true → (x == b) ≡ false
apart x b l out h = elim (Bool-cases (x == b)) [
  | inl e ↦ absurd (contrary (has b l) (ap (λ x. has x l) (sym (is_eq x b e)) ∙ h) out)
  | inr z ↦ z
]

pub IsChain-keep :
    (b : ℕ) (l : List ℕ) (s t : Vects)
    → IsChain s b l
    → (t.at b).extra ≡ (s.at b).extra
    → t.taken b ≡ s.taken b
    → SameOn l s t
    → IsChain t b l
IsChain-keep b [] s t (e, k) x u same = (x ∙ e, u ∙ k)
IsChain-keep b (n ∷ l) s t (e, nz, k, d, c) x u same =
    (x ∙ e, nz, u ∙ k, d, IsChain-same n l s t c same)

-- Walks past the first block see what the blocks behind it hold.
pub get_walk-keep :
    (q b r : ℕ) (l : List ℕ) (s t : Vects)
    → IsChain s b l
    → (t.at b).extra ≡ (s.at b).extra
    → SameOn l s t
    → get_walk (suc q) b r t ≡ get_walk (suc q) b r s
get_walk-keep q b r [] s t (e, k) x same = get-end q b r t (x ∙ e) ∙ sym (get-end q b r s e)
get_walk-keep q b r (n ∷ l) s t (e, nz, k, d, c) x same =
    get-onward q b n r t (x ∙ e) nz
    ∙ get_walk-same q n r l s t c same
    ∙ sym (get-onward q b n r s e nz)

pub clear :
    (b : ℕ) (l : List ℕ) (s : Vects) → IsChain s b l → (has b l ≡ false) × (s.taken b ≡ true)
clear b [] s (e, k) = (refl, k)
clear b (n ∷ l) s (e, nz, k, d, c) = (d, k)

module _ (w : AddrType) (b r a : ℕ) (l : List ℕ) (s : Vects) (c : IsChain s b l) where
  abbrev here_set : Vects
  here_set = modify_at b (set_alloc w r a) s

  here_same : SameOn l s here_set
  here_same x h =
      (foreign s.at b x (set_alloc w r a (s.at b)) (apart x b l (clear b l s c).0 h), refl)

  here_own : here_set.at b ≡ set_alloc w r a (s.at b)
  here_own = own s.at b (set_alloc w r a (s.at b))

  here_slots : (p k : ℕ) → (p ≢ 0) ⊎ (k ≢ r) → get_walk p b k here_set ≡ get_walk p b k s
  here_slots zero k (inl nz) = absurd (nz refl)
  here_slots zero k (inr ne) =
      let z : (k == r) ≡ false = ground arith in
      get-here b k here_set ∙ ap (λ v. v.slot k) here_own ∙ rw z refl ∙ sym (get-here b k s)
  here_slots (suc p) k d = get_walk-keep p b k l s here_set c (ap (λ v. v.extra) here_own) here_same

  set_here-Sets : Sets w 0 b r a l s here_set
  set_here-Sets =
      let z : (r == r) ≡ true = ground arith in
      record {
        chain = (
          l,
          IsChain-keep b l s here_set c (ap (λ v. v.extra) here_own) refl here_same,
          λ x h. refl,
        );
        outside = λ x k out. foreign s.at b x (set_alloc w r a (s.at b)) (not_head x b l out).0;
        taken = λ x k. k;
        items = ap (λ v. v.items) here_own;
        stored = get-here b r here_set ∙ ap (λ v. v.slot r) here_own ∙ rw z refl;
        others = here_slots;
      }

-- A store behind the first block is one from the first block.
module _ (w : AddrType) (q b n r a : ℕ) (l : List ℕ) (s t : Vects) (c : IsChain s b (n ∷ l))
    (h : Sets w q n r a l s t) where
  onward_keep : t.at b ≡ s.at b
  onward_keep = h.outside b c.2 c.3

  onward_extra : (t.at b).extra ≡ n
  onward_extra = ap (λ v. v.extra) onward_keep ∙ c.0

  onward_slots : (p k : ℕ) → (p ≢ suc q) ⊎ (k ≢ r) → get_walk p b k t ≡ get_walk p b k s
  onward_slots zero k d = get-here b k t ∙ ap (λ v. v.slot k) onward_keep ∙ sym (get-here b k s)
  onward_slots (suc p) k d =
      let d' : (p ≢ q) ⊎ (k ≢ r) = elim d [ inl ne ↦ inl (λ e. ne (ap suc e)) | inr ne ↦ inr ne ] in
      get-onward p b n k t onward_extra c.1 ∙ h.others p k d' ∙ sym (get-onward p b n k s c.0 c.1)

  pub onward-Sets : Sets w (suc q) b r a (n ∷ l) s t
  onward-Sets =
      let (e, nz, k, d, c') = c in
      let (j, cj, same) = h.chain in
      record {
        chain = (
          n ∷ j,
          (onward_extra, nz, h.taken b k, ap (λ o. (b == n) || o) (same b k) ∙ d, cj),
          λ x k. ap (λ o. (x == n) || o) (same x k),
        );
        outside = λ x k out. h.outside x k (not_head x b (n ∷ l) out).1;
        taken = h.taken;
        items = ap (λ v. v.items) onward_keep;
        stored = get-onward q b n r t onward_extra nz ∙ h.stored;
        others = onward_slots;
      }

flip : (x n : ℕ) → (x == n) ≡ false → (n == x) ≡ false
flip x n z = ground arith

different : (f : ℕ → Bool) (x n : ℕ) → f x ≡ true → f n ≡ false → (x == n) ≡ false
different f x n k z = elim (Bool-cases (x == n)) [
  | inl e ↦ absurd (contrary (f x) k (ap f (is_eq x n e) ∙ z))
  | inr z ↦ z
]

get-empty : (p b k : ℕ) (s : Vects) → s.at b ≡ empty → get_walk p b k s ≡ 0
get-empty zero b k s e = get-here b k s ∙ ap (λ v. v.slot k) e
get-empty (suc p) b k s e = get-end p b k s (ap (λ v. v.extra) e)

continued-new :
    (w : AddrType) (b n : ℕ) (s : Vects) → (b == n) ≡ false → (continued w b n s).at n ≡ empty
continued-new w b n s differs =
    foreign (update s.at n empty) b n (set_extra w n (update s.at n empty b)) (flip b n differs)
    ∙ own s.at n empty

pub mod_small : (n k : ℕ) → n < k → n % k ≡ n
mod_small n k lt = grind arith

-- A store behind a new block is one from the block that it hangs on, which was the last.
module _ (w : AddrType) (q b n r a : ℕ) (s t : Vects) (c : IsChain s b [])
    (free : s.taken n ≡ false) (nz : n ≢ 0) (lt : n < addr_limit w)
    (h : Sets w q n r a [] (continued w b n s) t) where
  abbrev hung : Vects
  hung = continued w b n s

  differs : (b == n) ≡ false
  differs = different s.taken b n c.1 free

  hung_at : hung.at b ≡ set_extra w n (s.at b)
  hung_at =
      own (update s.at n empty) b (set_extra w n (update s.at n empty b))
      ∙ ap (set_extra w n) (foreign s.at n b empty differs)

  hung_taken : (x : ℕ) → s.taken x ≡ true → hung.taken x ≡ true
  hung_taken x k = rw (different s.taken x n k free) k

  further_at : t.at b ≡ set_extra w n (s.at b)
  further_at = h.outside b (hung_taken b c.1) (rw differs refl) ∙ hung_at

  further_extra : (t.at b).extra ≡ n
  further_extra = ap (λ v. v.extra) further_at ∙ mod_small n (addr_limit w) lt

  further_slots : (p k : ℕ) → (p ≢ suc q) ⊎ (k ≢ r) → get_walk p b k t ≡ get_walk p b k s
  further_slots zero k d = get-here b k t ∙ ap (λ v. v.slot k) further_at ∙ sym (get-here b k s)
  further_slots (suc p) k d =
      let d' : (p ≢ q) ⊎ (k ≢ r) = elim d [ inl ne ↦ inl (λ e. ne (ap suc e)) | inr ne ↦ inr ne ] in
      get-onward p b n k t further_extra nz
      ∙ h.others p k d'
      ∙ get-empty p n k hung (continued-new w b n s differs)
      ∙ sym (get-end p b k s c.0)

  pub further-Sets : Sets w (suc q) b r a [] s t
  further-Sets =
      let (j, cj, same) = h.chain in
      record {
        chain = (
          n ∷ j,
          (
            further_extra,
            nz,
            h.taken b (hung_taken b c.1),
            ap (λ o. (b == n) || o) (same b (hung_taken b c.1)) ∙ rw differs refl,
            cj,
          ),
          λ x k.
              ap (λ o. (x == n) || o) (same x (hung_taken x k))
              ∙ rw (different s.taken x n k free) refl,
        );
        outside = λ x k out.
            h.outside x (hung_taken x k) (rw (different s.taken x n k free) refl)
            ∙ foreign (update s.at n empty) b x (set_extra w n (update s.at n empty b))
                (not_head x b [] out).0
            ∙ foreign s.at n x empty (different s.taken x n k free);
        taken = λ x k. h.taken x (hung_taken x k);
        items = ap (λ v. v.items) further_at;
        stored = get-onward q b n r t further_extra nz ∙ h.stored;
        others = further_slots;
      }

-- Addresses that an allocator gives are free, not null, and of the width.
abbrev pub IsAllocator : AddrType → (Vects → Option ℕ) → Type 0
IsAllocator w alloc =
    (s : Vects) (n : ℕ) → alloc s ≡ some n → (s.taken n ≡ false) × (n ≢ 0) × (n < addr_limit w)

pub option_cases : (o : Option ℕ) → (o ≡ none) ⊎ ((n : ℕ) × (o ≡ some n))
option_cases none = inl refl
option_cases (some n) = inr (n, refl)

module _ (w : AddrType) (alloc : Vects → Option ℕ) where
  walk-onward :
      (q b n r a : ℕ) (s : Vects)
      → (s.at b).extra ≡ n
      → n ≢ 0
      → set_walk w alloc (suc q) b r a s ≡ set_walk w alloc q n r a s
  unfolding set_walk
  walk-onward q b n r a s e nz = let z : (n == 0) ≡ false = ground arith in rw (set_walk, e, z) refl

  walk-further :
      (q b n r a : ℕ) (s : Vects)
      → (s.at b).extra ≡ 0
      → alloc s ≡ some n
      → set_walk w alloc (suc q) b r a s ≡ set_walk w alloc q n r a (continued w b n s)
  unfolding set_walk
  walk-further q b n r a s e g =
      let z : ((s.at b).extra == 0) ≡ true = rw e refl in rw (set_walk, z, g) refl

  walk-refused :
      (q b r a : ℕ) (s : Vects)
      → (s.at b).extra ≡ 0
      → alloc s ≡ none
      → set_walk w alloc (suc q) b r a s ≡ none
  unfolding set_walk
  walk-refused q b r a s e g = rw (set_walk, e, g) refl

  walk-here :
      (b r a : ℕ) (s : Vects) → set_walk w alloc 0 b r a s ≡ some (modify_at b (set_alloc w r a) s)
  unfolding set_walk
  walk-here b r a s = refl

  new-IsChain :
      (s : Vects) (n b : ℕ)
      → s.taken b ≡ true
      → s.taken n ≡ false
      → IsChain (continued w b n s) n []
  new-IsChain s n b k free =
      let z : (n == n) ≡ true = ground arith in
      (ap (λ v. v.extra) (continued-new w b n s (different s.taken b n k free)), rw z refl)

  -- A store ends, or the allocator has refused.
  abbrev pub Ends : ℕ → ℕ → ℕ → ℕ → List ℕ → Vects → Type 0
  Ends q b r a l s =
      ((t : Vects) × (set_walk w alloc q b r a s ≡ some t) × Sets w q b r a l s t)
      ⊎ ((set_walk w alloc q b r a s ≡ none) × ((u : Vects) × (alloc u ≡ none)))

  pub set_walk-ok :
      (q b r a : ℕ) (l : List ℕ) (s : Vects)
      → IsAllocator w alloc
      → IsChain s b l
      → Ends q b r a l s
  set_walk-ok zero b r a l s law c =
      inl (modify_at b (set_alloc w r a) s, walk-here b r a s, set_here-Sets w b r a l s c)
  set_walk-ok (suc q) b r a (n ∷ l) s law c = elim (set_walk-ok q n r a l s law c.4) [
    | inl (t, run, h) ↦
        inl (t, walk-onward q b n r a s c.0 c.1 ∙ run, onward-Sets w q b n r a l s t c h)
    | inr (run, u) ↦ inr (walk-onward q b n r a s c.0 c.1 ∙ run, u)
  ]
  set_walk-ok (suc q) b r a [] s law c = elim (option_cases (alloc s)) [
    | inl g ↦ inr (walk-refused q b r a s c.0 g, (s, g))
    | inr (n, g) ↦
        let (free, nz, lt) = law s n g in
        elim (set_walk-ok q n r a [] (continued w b n s) law (new-IsChain s n b c.1 free)) [
          | inl (t, run, h) ↦
              inl (
                t,
                walk-further q b n r a s c.0 g ∙ run,
                further-Sets w q b n r a s t c free nz lt h,
              )
          | inr (run, u) ↦ inr (walk-further q b n r a s c.0 g ∙ run, u)
        ]
  ]
