-- ===== src/Threads.antt =====
-- hw3_thread-library: user threads under a scheduler.
pub mod Scheduler
pub mod Start
pub mod Tasks
pub mod Run
mod Tests
