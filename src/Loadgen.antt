-- ===== src/Loadgen.antt =====
-- cmd/loadgen/main.go: the record files of the crash test, the workers that fill them, and the
-- reconciliation after the restart.
pub mod Files
pub mod Crash
pub mod Verify
mod Tests
