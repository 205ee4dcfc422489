-- ===== src/Targz.antt =====
-- esp-idf/src/targz.cpp: streaming ustar inside gzip, in both directions.
pub mod Octal
pub mod Header
pub mod Names
pub mod Tar
pub mod Writer
pub mod RoundTrip
pub mod Gzip
pub mod Reader
mod Tests
