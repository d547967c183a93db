-- ===== src/Chain.antt =====
-- The chain of blocks and its rollback in src/db/storage.cpp: rollback, sync_chain and what they call.
-- A table is the list of its rows in LMDB's order, and a cursor is the place where a function has
-- split that list. A transaction that fails leaves the tables as they were, so an error has no tables.
pub mod Tables
pub mod Rollback
pub mod Sync
pub mod Blocks
pub mod Compare
pub mod KeptBlocks
pub mod Follows
pub mod Lowering
pub mod Accounts
pub mod Extends
pub mod Pow
pub mod Checkpoints
pub mod Runs
