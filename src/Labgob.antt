-- ===== src/Labgob.antt =====
-- labgob/: encoding/gob with a look at what is coded.
pub mod Types
pub mod Capital
pub mod Default
pub mod Coder
mod Examples
