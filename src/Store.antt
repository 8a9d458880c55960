-- ===== src/Store.antt =====
-- The store node (phxqueue/store): the queue of cursors kept in memory, and the cursors of each
-- consumer group.
pub mod Meta
pub mod Sync
pub mod CheckPoint
pub mod Base
pub mod Machine
mod Tests
