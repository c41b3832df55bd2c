-- ===== src/Root/Laws.antt =====
-- What the setters of the control keys promise.
use msgcore.Prelude.{ℕ, ◌+◌, ◌-◌, ◌%◌, ◌^◌, ◌≤◌, ◌<◌, ◌≡◌, false, some, arith}
use msgcore.Width.{addr_limit}
use msgcore.Root.{Root, neg_int, set_free_size}

-- Adding -(int)n subtracts n, as long as n is below 2^31.
pub neg_int-add :
    (n old : ℕ) → n < 0x8000_0000 → n ≤ old → old < 2 ^ 64 → (neg_int n + old) % 2 ^ 64 ≡ old - n
unfolding neg_int
neg_int-add n old small le big = ground arith

module _ (r : Root) where
  pub set_free_size-sub :
      (n : ℕ)
      → n < 0x8000_0000
      → n ≤ r.free_size
      → r.free_size < addr_limit r.addr
      → r.free_size < 2 ^ 64
      → set_free_size r (neg_int n) false ≡ some (record r { free_size = r.free_size - n })
  unfolding set_free_size
  set_free_size-sub n small le fit big = ground (arith, neg_int-add n r.free_size)
