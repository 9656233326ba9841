-- ===== src/Labrpc.antt =====
-- labrpc/: the network of the tests, which can lose, delay and reorder calls.
pub mod Network
pub mod Dispatch
pub mod Delivery
mod Answers
mod Setup
mod Calls
mod Examples
