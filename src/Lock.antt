-- ===== src/Lock.antt =====
-- The lock node (phxqueue/lock): its database of records with leases, and the replicated groups that
-- it keeps one for each of.
pub mod Disk
pub mod Db
pub mod Group
pub mod Node
mod Sample
mod Tests
