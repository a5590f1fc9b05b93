-- ===== src/Engine.antt =====
-- cpp/src/pmm/engine.cpp and cpp/src/pmm/db.cpp: the maker's quotes and their cash.
pub mod Store
pub mod Place
pub mod Live
pub mod Placed
pub mod Rows
pub mod Legs
pub mod Rollback
pub mod Accrue
pub mod Growth
pub mod Histories
pub mod Reconcile
pub mod Act
pub mod AccrueLive
pub mod Runs
pub mod Wired
