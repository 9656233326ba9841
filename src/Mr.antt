-- ===== src/Mr.antt =====
-- mr/: the MapReduce coordinator and worker.
pub mod Types
pub mod Names
pub mod Json
pub mod Worker
pub mod Coordinator
mod Redo
mod Working
