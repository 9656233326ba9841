-- ===== src/Shardkv.antt =====
-- shardkv/: the key/value service whose shards move between groups.
pub mod Types
pub mod Client
pub mod Server
