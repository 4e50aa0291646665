-- ===== src/Util.antt =====
-- dnf/util.py: lists of items and of packages, and the states of a transaction that was run.
pub mod Groups
pub mod Sync
pub mod MakeLists
pub mod Specs
mod Tests
