-- ===== src/Shardctrler.antt =====
-- shardctrler/: the fault-tolerant manager of the configurations.
pub mod Types
pub mod Server
pub mod Client
pub mod Harness
