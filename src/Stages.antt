-- ===== src/Stages.antt =====
-- The stages of a pipeline.
pub mod Dependencies
pub mod Sorting
