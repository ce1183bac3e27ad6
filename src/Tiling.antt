-- ===== src/Tiling.antt =====
-- The tiling of loops.
pub mod TileSize
pub mod LoopNests
