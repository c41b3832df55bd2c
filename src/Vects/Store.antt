-- ===== src/Vects/Store.antt =====
-- The slots of a vector as one sequence.
use msgcore.Prelude.{
  ◌^◌, ℕ, zero, suc, ◌/◌, ◌%◌, ◌<◌, ◌≡◌, ◌≢◌, ◌⊎◌, inl, inr, refl, sym, ap, ◌∙◌, true, false,
  Option, none, some, List, arith, Bool-cases, ◌==◌, if◌then◌else◌,
}
use msgcore.Width.{AddrType, addr_limit}
use msgcore.Vects.{Vects, max_inline, modify_at, set_items, get_walk, get_slot, get_count, set_slot}
use msgcore.Vects.Chain.{
  IsChain, SameOn, IsAllocator, set_walk-ok, own, foreign, apart, clear, IsChain-keep,
  get_walk-keep, get-here,
}

-- The vector's blocks are chained.
abbrev pub IsVector : Vects → Type 0
IsVector s = (l : List ℕ) × IsChain s 0 l

-- Every slot holds an address of the width.
abbrev pub IsNarrow : AddrType → Vects → Type 0
IsNarrow w s = (m : ℕ) → get_slot m s < addr_limit w

pub unless : (x y a b : ℕ) → x ≢ y → (if x == y then a else b) ≡ b
unless x y a b ne = ground arith

-- Counting anew leaves the slots and the chain.
module _ (w : AddrType) (n : ℕ) (s : Vects) (v : IsVector s) where
  abbrev counted : Vects
  counted = modify_at 0 (set_items w n) s

  pub counted_head : counted.at 0 ≡ set_items w n (s.at 0)
  counted_head = own s.at 0 (set_items w n (s.at 0))

  counted_same : SameOn v.0 s counted
  counted_same x h =
      (foreign s.at 0 x (set_items w n (s.at 0)) (apart x 0 v.0 (clear 0 v.0 s v.1).0 h), refl)

  pub counted_is : IsVector counted
  counted_is =
      (v.0, IsChain-keep 0 v.0 s counted v.1 (ap (λ v. v.extra) counted_head) refl counted_same)

  pub counted_walk : (q r : ℕ) → get_walk q 0 r counted ≡ get_walk q 0 r s
  counted_walk zero r =
      get-here 0 r counted ∙ ap (λ v. v.slot r) counted_head ∙ sym (get-here 0 r s)
  counted_walk (suc q) r =
      get_walk-keep q 0 r v.0 s counted v.1 (ap (λ v. v.extra) counted_head) counted_same

-- What storing one slot leaves.
pub record Stores (w : AddrType) (n a : ℕ) (s t : Vects) : Type 0 where
  pub chained : IsVector t
  pub slots : (m : ℕ) → get_slot m t ≡ (if m == n then a % addr_limit w else get_slot m s)
  pub count : get_count t ≡ get_count s

same_place : (m n : ℕ) → (m == n) ≡ true → m ≡ n
same_place m n z = ground arith

other_place : (m n : ℕ) → (m == n) ≡ false → (m / 32 ≢ n / 32) ⊎ (m % 32 ≢ n % 32)
other_place m n z = ground arith

-- Whatever has run ends, or the allocator has refused.
abbrev pub Ends : (Vects → Option ℕ) → Option Vects → (Vects → Type 0) → Type 0
Ends alloc o P =
    ((t : Vects) × (o ≡ some t) × P t) ⊎ ((o ≡ none) × ((u : Vects) × (alloc u ≡ none)))

module _ (w : AddrType) (alloc : Vects → Option ℕ) (law : IsAllocator w alloc) where
  -- Storing a slot of a chained vector, wherever it stands, ends unless the allocator refuses a
  -- continuation block; then that slot holds the address, all others hold what they held, and the
  -- vector is chained and counts as before.
  pub set_slot-ok :
      (n a : ℕ) (s : Vects) → IsVector s → Ends alloc (set_slot w alloc n a s) (Stores w n a s)
  set_slot-ok n a s (l, c) =
      elim (set_walk-ok w alloc (n / max_inline) 0 (n % max_inline) a l s law c) [
        | inr refused ↦ inr refused
        | inl (t, run, h) ↦ inl (
          t,
          run,
          record {
            chained = (h.chain.0, h.chain.1);
            slots = λ m. elim (Bool-cases (m == n)) [
              | inl e ↦ ap (λ m. get_slot m t) (same_place m n e) ∙ h.stored ∙ sym (rw e refl)
              | inr z ↦
                  h.others (m / max_inline) (m % max_inline) (other_place m n z) ∙ sym (rw z refl)
            ];
            count = ap (λ n. n % 2 ^ 32) h.items;
          },
        )
      ]
