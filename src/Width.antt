-- ===== src/Width.antt =====
-- The addressing widths of Msgcore.h and the sizes that MsgVBHeap.cpp and P2PmsgVBLock.cpp derive
-- from them. `VBLock_AddrMask` keeps two bits, so the four widths are all there are, and the
-- sources' branches for an unknown width cannot be reached.
use msgcore.Prelude.{ℕ, ◌+◌, ◌*◌, Bool, true, false}

-- `VBLock_Addr08` to `VBLock_Addr64`.
pub data AddrType : Type 0 where
  addr08 addr16 addr32 addr64 : AddrType

-- sizeof ( UINTnn )
abbrev pub addr_bytes : AddrType → ℕ
addr_bytes addr08 = 1
addr_bytes addr16 = 2
addr_bytes addr32 = 4
addr_bytes addr64 = 8

-- One more than the greatest UINTnn.
abbrev pub addr_limit : AddrType → ℕ
addr_limit addr08 = 0x100
addr_limit addr16 = 0x1_0000
addr_limit addr32 = 0x1_0000_0000
addr_limit addr64 = 0x1_0000_0000_0000_0000

abbrev pub same_addr : AddrType → AddrType → Bool
same_addr addr08 addr08 = true
same_addr addr16 addr16 = true
same_addr addr32 addr32 = true
same_addr addr64 addr64 = true
same_addr _ _ = false

-- One byte of definitions and a size of the width.
abbrev pub sizeof_hdr : AddrType → ℕ
sizeof_hdr w = 1 + addr_bytes w

-- A header and the two links of a free block.
abbrev pub vbheap_min : AddrType → ℕ
vbheap_min w = 1 + addr_bytes w + 2 * addr_bytes w

-- sizeof ( VBHeapFoot ): a 32-bit magic number and a 64-bit size.
abbrev pub sizeof_foot : ℕ
sizeof_foot = 12

abbrev pub foot_min : AddrType → ℕ
foot_min w = vbheap_min w + sizeof_foot

-- Note that 64-bit addressing is held to 32 bits.
abbrev pub vbheap_max : AddrType → ℕ
vbheap_max addr08 = 0xff
vbheap_max addr16 = 0xffff
vbheap_max addr32 = 0xffff_ffff
vbheap_max addr64 = 0xffff_ffff

-- Two 16-bit fields and eight keys of the width.
abbrev pub sizeof_root : AddrType → ℕ
sizeof_root w = 4 + 8 * addr_bytes w
