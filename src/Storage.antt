-- ===== src/Storage.antt =====
-- Parts of esp-idf/src/storage.cpp, the configuration tree: the lists of operations that its actor applies, and
-- the table of subscriptions.
pub mod Ops
pub mod Subs
mod Tests
