-- ===== src/Heap/Session/Created.antt =====
-- Sessions on a new image (MsgVBHeap.cpp, `P2PmsgHeap_CreateIOMAGE`).
use msgcore.Heap.{Heap}
use msgcore.Heap.Create.Fresh.{Fresh}
use msgcore.Heap.Session.{Session}
