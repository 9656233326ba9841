-- ===== src/Raft.antt =====
-- raft/: the replicated log. The source leaves out most bodies; README.md shows some of them.
pub mod Types
pub mod Storage
pub mod Peer
pub mod Compaction
mod Votes
pub mod Harness
pub mod Wiring
pub mod Restart
pub mod Cluster
pub mod Leaders
pub mod Snapping
pub mod Waiting
mod Examples
