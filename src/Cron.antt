-- ===== src/Cron.antt =====
-- The task scheduler of esp-idf/src/cron.cpp.
pub mod Field
pub mod Entry
pub mod NextRun
pub mod Poll
mod Tests
