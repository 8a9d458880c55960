-- ===== src/Scheduler.antt =====
-- The scheduler: it collects the load of the consumers of each topic and spreads weights over them.
pub mod Float
pub mod Topic
pub mod Balance
pub mod Load
pub mod Live
pub mod Reload
pub mod Removal
mod Tests
pub mod Manager
pub mod Answer
pub mod Weights
