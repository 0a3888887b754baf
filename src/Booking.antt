-- ===== src/Booking.antt =====
-- hw1_csiebooking/server.c: the booking server, which is compiled twice, to read and to write.
pub mod Number
pub mod Line
pub mod Server
pub mod Command
pub mod Loop
pub mod Totals
pub mod Replies
pub mod Locks
pub mod Main
mod Tests
