-- ===== src/Sync.antt =====
-- The synchronisation word of an image (Msgcore.h) and the classification of a pair of them
-- (MsgVBHeap.cpp, `P2PmsgHeap_IOMAGEform`). A word is a number below 2^32; its top byte carries the
-- width in two bits and the generation code in the other six, and the rest is the size.
use msgcore.Prelude.{
  ℕ, ◌+◌, ◌-◌, ◌*◌, ◌/◌, ◌%◌, ◌<◌, ◌≤◌, ◌≡◌, ◌↔◌, ◌⊎◌, Bool, true, false, arith, ◌==◌,
  if◌then◌else◌,
}
use msgcore.Width.{AddrType, addr08, addr16, addr32, addr64}

pub data SyncForm : Type 0 where
  invalid native legacy swapped gen : SyncForm

-- `VBLock_SyncGenNow`
abbrev pub sync_gen_now : ℕ
sync_gen_now = 0xA4

abbrev pub addr_code : AddrType → ℕ
addr_code addr08 = 0
addr_code addr16 = 1
addr_code addr32 = 2
addr_code addr64 = 3

-- A byte `& VBLock_SyncMask`.
abbrev pub sync_mask : ℕ → ℕ
sync_mask byte = byte / 4 * 4

unfoldable pub sync_is_gen : ℕ → Bool
sync_is_gen bits = bits == sync_gen_now

unfoldable pub sync_gen_code : ℕ → ℕ
sync_gen_code sync = sync_mask (sync / 0x100_0000 % 0x100)

unfoldable pub sync_form : ℕ → SyncForm
sync_form sync =
    if sync_mask (sync / 0x100_0000 % 0x100) == sync_gen_now
    then native
    else if sync_mask (sync / 0x100_0000 % 0x100) == 0
    then legacy
    else if sync_mask (sync % 0x100) == sync_gen_now
    then swapped
    else gen

unfoldable pub sync_addr : ℕ → ℕ
sync_addr sync = sync / 0x100_0000 % 4

unfoldable pub sync_make : ℕ → ℕ → ℕ
sync_make size addr = size % 0x100_0000 + (sync_gen_now + addr % 4) * 0x100_0000

-- Two words whose bits are each other's complement add up to all ones.
unfoldable pub iomage_form : ℕ → ℕ → SyncForm
iomage_form sync₁ sync₂ = if sync₁ + sync₂ == 0xffff_ffff then sync_form sync₁ else invalid

abbrev pub usable : SyncForm → Bool
usable native = true
usable legacy = true
usable _ = false

unfoldable pub is_iomage : ℕ → ℕ → Bool
is_iomage sync₁ sync₂ = usable (iomage_form sync₁ sync₂)

-- The word as a peer of the other byte order reads it.
abbrev pub byte_swap : ℕ → ℕ
byte_swap n =
    n % 0x100 * 0x100_0000
    + n / 0x100 % 0x100 * 0x1_0000
    + n / 0x1_0000 % 0x100 * 0x100
    + n / 0x100_0000 % 0x100

-- A stamped word and its complement are a native image; the width and the size modulo 2^24 come
-- back out of the word.
pub sync_make-iomage_form :
    (size : ℕ) (w : AddrType)
    → let sync = sync_make size (addr_code w) in
      (iomage_form sync (0xffff_ffff - sync) ≡ native)
      × (sync_addr sync ≡ addr_code w)
      × (sync_gen_code sync ≡ sync_gen_now)
      × (sync % 0x100_0000 ≡ size % 0x100_0000)
      × (sync < 0x1_0000_0000)
unfolding iomage_form sync_form sync_make sync_addr sync_gen_code
sync_make-iomage_form size w =
    (ground arith, ground arith, ground arith, ground arith, ground arith)

-- A stamped word read in the other byte order is told from a native one by the low byte of its
-- size: below 4 it passes for a legacy image, at 0xA4 to 0xA7 for a native one, and at any other
-- value it is recognised as swapped.
pub sync_form-byte_swap :
    (size : ℕ) (w : AddrType)
    → let form = sync_form (byte_swap (sync_make size (addr_code w))) in
      (size % 0x100 < 4 → form ≡ legacy)
      × (0xA4 ≤ size % 0x100 → size % 0x100 < 0xA8 → form ≡ native)
      × (4 ≤ size % 0x100 → (size % 0x100 < 0xA4) ⊎ (0xA8 ≤ size % 0x100) → form ≡ swapped)
unfolding sync_form sync_make
sync_form-byte_swap size w = (λ l. ground arith, λ l u. ground arith, λ l o. ground arith)

-- An image is accepted exactly when its two words are complements and the six bits over the width
-- are the current generation's or zero.
pub is_iomage_iff :
    (sync₁ sync₂ : ℕ)
    → (is_iomage sync₁ sync₂ ≡ true) ↔ (
        (sync₁ + sync₂ ≡ 0xffff_ffff)
        × ((sync_gen_code sync₁ ≡ sync_gen_now) ⊎ (sync_gen_code sync₁ ≡ 0)))
unfolding is_iomage iomage_form sync_form sync_gen_code
is_iomage_iff sync₁ sync₂ = (λ t. ground arith, λ t. ground arith)
