-- ===== src/Arch.antt =====
-- The views of the architecture description (lib/Analysis/ArchViews).
pub mod Device
pub mod MemoryTree
pub mod RoutingGraph
pub mod GroupLocalMemory
