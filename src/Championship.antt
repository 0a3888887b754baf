-- ===== src/Championship.antt =====
-- hw2_pvp-championship: players and battles, processes that exchange the players' status.
pub mod Status
pub mod Graph
pub mod Battle
pub mod Player
pub mod Tree
mod Tests
