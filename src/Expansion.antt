-- ===== src/Expansion.antt =====
-- lib/Transforms/PathExpansion: the planner, which puts the stages of a pipeline on a route through
-- the routing graph and adds the stages that are missing on the way.
pub mod Chain
pub mod FullPath
pub mod Plan
pub mod Resources
pub mod StageList
pub mod Factories
pub mod Classify
pub mod Populate
pub mod Planner
