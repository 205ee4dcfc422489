-- ===== src/Its.antt =====
-- Parts of esp-idf/src/its.cpp, the streams and messages between tasks: the ownership counters, the packet
-- links, the connection table and the pool of stream buffers.
pub mod Counter
pub mod Link
pub mod Conn
pub mod Pool
mod Tests
