-- ===== src/BlockData/Blob/Init.antt =====
-- What setting up a blob leaves (P2PmsgVBLock.cpp, `VBLockData_InitBlob`).
use msgcore.Prelude.{
  ℕ, ◌+◌, ◌-◌, ◌%◌, ◌^◌, ◌≤◌, ◌<◌, ◌≡◌, ◌≢◌, ◌⊎◌, inl, inr, Bool-cases, ltb→lt, refl, subst, ◌∙◌,
  true, false, some, arith, ltb,
}
use msgcore.Width.{AddrType, addr08, addr16, addr32, addr64, addr_bytes, addr_limit}
use msgcore.Bytes.{Memory, ok, throw, within, get08, put08, put16, put, data_undersized}
use msgcore.Bytes.Laws.{get-put, get-same, put-outside}
use msgcore.BlockData.{blob_arm, sizeof_blob, blob_size, blob_used, c_blob}
use msgcore.BlockData.Blob.{init_blob, clamp}

-- The bytes of a blob that was set up with a capacity.
abbrev fresh : AddrType → ℕ → ℕ → ℕ → ℕ → Memory → Memory
fresh w p attr t cap m =
    put16 (c_blob w p) 0
      (put w (p + 2 + addr_bytes w) 0 (put w (p + 2) cap (put08 p t (put08 (p + 1) attr m))))

init_blob-run :
    (w : AddrType) (p attr t size room : ℕ) (m : Memory)
    → blob_arm t ≡ some w
    → sizeof_blob w ≤ size
    → (size + 2 ^ 64 - 2 + 2 ^ 64 - sizeof_blob w) % 2 ^ 64 ≡ room
    → init_blob p attr t size m ≡ ok tt (fresh w p attr t (clamp w room) m)
unfolding init_blob
init_blob-run w p attr t size room m arm le e =
    let fits : ltb size (sizeof_blob w) ≡ false = ground arith in rw (init_blob, arm, e, fits) refl

init_blob-short :
    (w : AddrType) (p attr t size : ℕ) (m : Memory)
    → blob_arm t ≡ some w
    → size < sizeof_blob w
    → init_blob p attr t size m ≡ throw data_undersized (put08 p t (put08 (p + 1) attr m))
unfolding init_blob
init_blob-short w p attr t size m arm lt =
    let short : ltb size (sizeof_blob w) ≡ true = ground arith in rw (init_blob, arm, short) refl

-- What a blob with room for `cap` bytes is.
pub record Blank (w : AddrType) (p attr t cap : ℕ) (m m' : Memory) : Type 0 where
  pub type : get08 m' p ≡ t % 0x100
  pub attributes : get08 m' (p + 1) ≡ attr % 0x100
  pub size : blob_size w m' p ≡ cap
  pub used : blob_used w m' p ≡ 0
  pub outside : (q : ℕ) → within p (2 + sizeof_blob w) q ≡ false → m' q ≡ m q

fresh-Blank :
    (w : AddrType) (p attr t cap : ℕ) (m : Memory)
    → cap < addr_limit w
    → Blank w p attr t cap m (fresh w p attr t cap m)
fresh-Blank w p attr t cap m fit =
    let m₁ = put08 p t (put08 (p + 1) attr m) in
    let m₂ = put w (p + 2) cap m₁ in
    let m₃ = put w (p + 2 + addr_bytes w) 0 m₂ in
    record {
      type =
          let a = put-outside w (p + 2) cap p m₁ (ground arith) in
          let b = put-outside w (p + 2 + addr_bytes w) 0 p m₂ (ground arith) in ground arith;
      attributes =
          let a = put-outside w (p + 2) cap (p + 1) m₁ (ground arith) in
          let b = put-outside w (p + 2 + addr_bytes w) 0 (p + 1) m₂ (ground arith) in ground arith;
      size =
          get-same w (p + 2) m₂ (fresh w p attr t cap m) (λ q i.
            let b = put-outside w (p + 2 + addr_bytes w) 0 q m₂ (ground arith) in ground arith)
          ∙ get-put w (p + 2) cap m₁ fit;
      used =
          get-same w (p + 2 + addr_bytes w) m₃ (fresh w p attr t cap m) (λ q i. ground arith)
          ∙ get-put w (p + 2 + addr_bytes w) 0 m₂ (ground arith);
      outside = λ q out.
          let a = put-outside w (p + 2) cap q m₁ (ground arith) in
          let b = put-outside w (p + 2 + addr_bytes w) 0 q m₂ (ground arith) in ground arith;
    }

not_ltb : (x y : ℕ) → ltb x y ≡ false → y ≤ x
not_ltb x y e = ground arith

-- What setting up a blob of width `w` in `size` bytes ends in.
abbrev pub Inits : AddrType → ℕ → ℕ → ℕ → ℕ → Memory → Type 0
Inits w p attr t size m =
    (size < sizeof_blob w
      → init_blob p attr t size m ≡ throw data_undersized (put08 p t (put08 (p + 1) attr m)))
    × (sizeof_blob w ≤ size
        → size < 2 + sizeof_blob w
        → (m' : Memory) × (init_blob p attr t size m ≡ ok tt m')
          × Blank w p attr t (addr_limit w - 1) m m')
    × (2 + sizeof_blob w ≤ size
        → (m' : Memory) × (init_blob p attr t size m ≡ ok tt m')
          × Blank w p attr t (clamp w (size - (2 + sizeof_blob w))) m m')

pub init_blob-branches :
    (w : AddrType) (p attr t size : ℕ) (m : Memory)
    → w ≢ addr64
    → blob_arm t ≡ some w
    → size < 2 ^ 63
    → Inits w p attr t size m
init_blob-branches w p attr t size m narrow arm small =
    let cap = clamp w (size - (2 + sizeof_blob w)) in
    let top : addr_limit w ≤ 0x1_0000_0000 = limit w narrow in
    let pos : (0 < addr_limit w) × (addr_bytes w ≤ 8) = bytes w in
    (
      λ lt. init_blob-short w p attr t size m arm lt,
      λ le lt.
          let full : clamp w ((size + 2 ^ 64 - 2 + 2 ^ 64 - sizeof_blob w) % 2 ^ 64)
              ≡ addr_limit w - 1 =
            ground arith in
          (
            fresh w p attr t (addr_limit w - 1) m,
            subst (λ c. init_blob p attr t size m ≡ ok tt (fresh w p attr t c m)) full
                (init_blob-run w p attr t size _ m arm le refl),
            fresh-Blank w p attr t (addr_limit w - 1) m (ground arith),
          ),
      λ le. (
        fresh w p attr t cap m,
        init_blob-run w p attr t size (size - (2 + sizeof_blob w)) m arm (ground arith)
            (ground arith),
        fresh-Blank w p attr t cap m (ground arith),
      ),
    )
  where
    limit : (w : AddrType) → w ≢ addr64 → addr_limit w ≤ 0x1_0000_0000
    limit addr08 ne = omega arith
    limit addr16 ne = omega arith
    limit addr32 ne = omega arith
    limit addr64 ne = absurd (ne refl)

    bytes : (w : AddrType) → (0 < addr_limit w) × (addr_bytes w ≤ 8)
    bytes addr08 = (omega arith, omega arith)
    bytes addr16 = (omega arith, omega arith)
    bytes addr32 = (omega arith, omega arith)
    bytes addr64 = (omega arith, omega arith)

-- A blob is set up with the capacity that its bytes leave, or the greatest of its width if that is
-- less, where it is given its header and counts at least. With fewer bytes than the counts take the
-- call throws. With the bytes of the counts but not all of the header the room wraps below zero, and
-- the blob is set up with the greatest capacity of its width, for which there is no room at all.
pub init_blob-ok :
    (w : AddrType) (p attr t size : ℕ) (m : Memory)
    → w ≢ addr64
    → blob_arm t ≡ some w
    → size < 2 ^ 63
    → ((size < sizeof_blob w)
        × (init_blob p attr t size m ≡ throw data_undersized (put08 p t (put08 (p + 1) attr m))))
      ⊎ ((sizeof_blob w ≤ size)
          × (size < 2 + sizeof_blob w)
          × ((m' : Memory) × (init_blob p attr t size m ≡ ok tt m')
              × Blank w p attr t (addr_limit w - 1) m m'))
      ⊎ ((2 + sizeof_blob w ≤ size)
          × ((m' : Memory) × (init_blob p attr t size m ≡ ok tt m')
              × Blank w p attr t (clamp w (size - (2 + sizeof_blob w))) m m'))
init_blob-ok w p attr t size m narrow arm small =
    let (short, wrapped, sound) = init_blob-branches w p attr t size m narrow arm small in
    elim (Bool-cases (ltb size (sizeof_blob w))) [
      | inl a ↦ inl (ltb→lt _ _ a, short (ltb→lt _ _ a))
      | inr a ↦ elim (Bool-cases (ltb size (2 + sizeof_blob w))) [
        | inl b ↦ inr (inl (not_ltb _ _ a, ltb→lt _ _ b, wrapped (not_ltb _ _ a) (ltb→lt _ _ b)))
        | inr b ↦ inr (inr (not_ltb _ _ b, sound (not_ltb _ _ b)))
      ]
    ]
