-- ===== src/Tests.antt =====
-- The theorems at concrete inputs.
mod Devices
mod Arch
mod Routing
mod Local
mod Memory
mod Tiling
mod Stages
mod Sorting
mod Expansion
mod Nodes
mod Planning
