-- ===== src/Recommender.antt =====
-- hw4_simple-movies-recommendation-system
pub mod Double
pub mod Sort
pub mod Order
pub mod Merge
pub mod Process
pub mod Scan
pub mod Serve
pub mod Load
pub mod Workers
pub mod Main
mod Samples
mod Tests
