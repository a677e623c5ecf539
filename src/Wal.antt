-- ===== src/Wal.antt =====
-- internal/wal: the write-ahead log.
pub mod Crc
pub mod Record
pub mod Recovery
pub mod Log
pub mod Open
pub mod Segments
mod Tests
