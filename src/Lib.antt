-- ===== src/Lib.antt =====
-- Msgcore keeps a message in one contiguous image, which is also what travels between peers. The
-- image is a heap of its own: a synchronisation word, a root of control keys, and blocks that tile
-- the rest. Offsets take the place of pointers and are stored at the image's addressing width, and
-- an image may come off the wire, so the code bounds what it reads and checks what it was given.
-- This library models that heap, as it is kept in an IOMAGE handle, and the checks around it.
--
--   Prelude     shared names, Boolean tests and lists over the native numbers
--   Width       Msgcore.h and MsgVBHeap.cpp: addressing widths and the sizes derived from them
--   Root        MsgVBHeap.cpp, VBHeapRoot_*: the control keys with the setters that may throw;
--               Root.Laws has the arithmetic of negative increments
--   Sync        Msgcore.h, VBLock_Sync*, and MsgVBHeap.cpp, P2PmsgHeap_IOMAGEform: the
--               synchronisation word
--   Heap        MsgVBHeap.cpp and P2PmsgVBLock.cpp: the state of a handle with its image, outcomes
--               of code that may throw, block headers, links and address checks
--     Chain       doubly linked lists of blocks, and what removing and renaming does to them
--     WellFormed  the invariant: the blocks tile the image, the free ones are chained from the
--                 root, and the keys count them
--     FreeList    P2PmsgHeap_StampFoot, _PrevFree, _IsolateIOMAGE, _CollateIOMAGE and
--                 _SplitAllocIOMAGE
--     Isolate, Merge, Collate, Take, Split, Push, Extend
--                 what these and the operations below do to a well-formed heap
--     Validate    P2PmsgHeap_AssertValidFree, _AssertValidIOMAGE, _AssertVBlocksIOMAGE and
--                 _ValidAllocBSTRio; Validate.FreeWalk is about the walk over the free list
--     Grow        P2PmsgHeap_CapGrowth and _ResizeIOMAGE
--     Alloc       P2PmsgHeap_AllocIOMAGE and P2PmsgHeap_Alloc
--     Free        P2PmsgHeap_FreeIOMAGE and P2PmsgHeap_Free
--     Create      P2PmsgHeap_InitIOMAGE and the P2PmsgHeap_CreateIOMAGE that makes an empty image
--     Sound       what every call relies on and leaves behind
--     Session     calls of the allocator and of the release in any order, as a client makes them;
--                 Session.Payload is about what the client writes into its blocks, and
--                 Session.Created starts them at a new image
--     Load        the two P2PmsgHeap_CreateIOMAGE that take a received image, and the gate that
--                 judges its blocks; Load.Unwalked is about images whose blocks it never sees
--     Bounds      P2PmsgHeap_Addr2PhysChk, _IsPhysSpan and _Sizeof, VBLock_IsContainedVBLump and
--                 VBLock_ChkContained
--   Items       P2PmsgVBLock.cpp, VBLockItem_*, VBLockList_*, VBLockAttr_* and VBLockDesc_*: the
--               items of a container with their links, and the container's keys
--     Link        P2Pmsg.cpp, P2PmsgList_LinkinItem, MsgAttr.cpp, P2PmsgAttr_LinkinItem, and
--                 MsgDesc.cpp, P2PmsgDesc_LinkinItem
--     Unlink      P2PmsgList_UnLinkItem, P2PmsgAttr_UnLinkItem and P2PmsgDesc_UnLinkItem
--     Listed      what it is for a container to hold a sequence, and what linking and unlinking do
--                 to the sequence
--     Sequence    MsgList.cpp, P3PmsgList: the linking part of its operations
--     Goto        MsgCurs.cpp, P3PmsgCurs::Goto by number
--     Sort        P2PmsgAttr_SortinItem, P2PmsgDesc_SortinItem and the order of names,
--                 P3PmsgName::operator < and >; Sort.Theorem has the reference that they are
--                 held against
--   Bytes       raw memory under packed structures, with Bytes.Laws for fields and Bytes.Units for
--               runs of 16-bit units
--   Wide        Platform/p2pstr.h: p2p_wide_units, p2p_store_wide and p2p_load_wide
--   BlockName   P2PmsgVBLock.cpp, VBLockName_*: names as they stand in a block; Laid is about
--               setting one up, Chain about names held elsewhere
--   BlockData   P2PmsgVBLock.cpp, VBLockData_*: typed data and its sizes; Arms is about the ladders
--               of type tests
--     Blob        VBLockData_InitBlob, _BlobCopy, _BlobMaxOf and _WidenBlob
--     Chain       VBLockData_Init, _SetChain2Next and _GetChain2Next
--     Copy        VBLockData_Copy, for counted data and for scalars
--   BlockField  P2PmsgVBLock.cpp, VBLock_pName and VBLock_pData: the way from a block to its name
--               and data. Place is about where it leads, Same about what it reads, Outside about
--               blocks that lead it out of themselves
--   Vects       MsgVect.cpp, P3PmsgVect, and the slots of VBLockVect_*: the vector with its
--               continuation blocks. Chain is about the blocks, Store about one slot, Insert and
--               Delete about InsertAt and Delete
--   Tests       small heaps, containers and blocks, and the theorems at them
--
-- A command takes a heap to an outcome: a value with the new heap, or a throw with what had been
-- written by then. ASSERT is empty in a release build and is left out. Headers and boundary tags
-- are functions of the offset, each at its own; bytes that two of them would share are not
-- modelled. Coalescing runs on fuel, one more than the image has bytes, which is enough since every
-- turn takes a free block off the list. The allocator's walk takes the code's own bound on the
-- number of blocks for its fuel and throws there as the code does, and its passes are at most four:
-- one, two after a resize, and one first-fit pass.
--
-- The links of the items reuse the chains of blocks. The C library's comparison of names is a
-- parameter of the sorting routines, with what they rely on as hypotheses (Items.Sort.Place,
-- Collation). The binary search runs on fuel, as many turns as there are items, which is enough
-- since each turn brings its bounds closer; a truncation takes a turn for each item.
--
-- Names and data are modelled over bytes, a function of the address, with little-endian fields and
-- a wchar_t of 32 bits; two lumps may overlap there, and what keeps them apart is a hypothesis where
-- it is needed. The loop that widens a type takes two turns at most.
--
-- The vectors stand in a store of their own, which says what addresses are taken. The walks along the
-- continuation blocks take as many turns as 32 goes into the number of the slot. The allocator is a
-- parameter there, an address or none where it throws, with what the walks rely on as a hypothesis
-- (Vects.Chain, IsAllocator); what a throw had written by then is not kept. A vector's number is
-- kept as the 32 bits of the int that the code has; where the count is negative as an int, a store
-- goes astray and what it writes is not modelled.
--
-- Not modelled: the BSTRio twin of the heap, the SYSTEM heap, reference counts, inode generations and
-- triggers, and what is built from items (fields, the elements of vectors, stacks, paths). The blocks
-- of the heap and the bytes inside them stand in separate stores. The flat C interface, the rest of
-- the platform layer and the exceptions' text are glue.
pub mod BlockData
pub mod BlockField
pub mod BlockName
pub mod Bytes
pub mod Heap
pub mod Items
pub mod Prelude
pub mod Root
pub mod Sync
pub mod Tests
pub mod Vects
pub mod Wide
pub mod Width
