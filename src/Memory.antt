-- ===== src/Memory.antt =====
-- Memory allocation: the tracker of addresses and the pass that assigns them.
pub mod Tracker
pub mod Assignment
