-- ===== src/Log.antt =====
-- Parts of esp-idf/src/log.cpp: the ring of pending bytes, the levels, the escape sequences and the rules.
pub mod Ring
pub mod Level
pub mod Ansi
pub mod Rules
pub mod Reformat
pub mod Inbound
pub mod Vprintf
mod Tests
