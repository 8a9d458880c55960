-- ===== src/Lock/Db/Mirror.antt =====
-- The database in memory and the one on the disk, given the same requests.
pub mod Writes
pub mod Requests
use phxqueue.Common.{
  ℕ, ◌≡◌, refl, sym, ap, ◌∙◌, ◌≢◌, Bool, true, false, inl, inr, Option, none, some, arith, ◌==◌,
  if◌then◌else◌, Bool-cases,
}
use phxqueue.Common.RetCode.{RetCode, ret_ok, ret_err_version_not_equal}
use phxqueue.Common.Key.{Bytes, bytes_key, bytes_eq, bytes_eq_iff}
use phxqueue.Common.Dict.{lookup, insert, erase, lookup-insert, lookup-erase}
use phxqueue.Lock.Disk.{LocalRecordInfo, Disk, Working}
use phxqueue.Lock.Db.{
  LockDb, RecordKeyInfo, map_storage, leveldb_storage, has_no_bytes, has_prefix, ignore_prefix,
  leased, found, parsed, get_record, set_record, delete_record, get_lock, set_lock, delete_lock,
  get_string, set_string, delete_string, disk_get, disk_set, disk_delete, acquire_lock,
  version_set_string,
}
use phxqueue.Lock.Db.Acquire.{
  grants, grants_string, set_record-memory, delete_record-memory, get_record-memory,
}
use phxqueue.Lock.Db.Records.{get_record-set_record, get_record-set_record_ne}

-- The record without its expiry time.
abbrev pub kept : Option LocalRecordInfo → Option LocalRecordInfo
kept none = none
kept (some r) = some (record r { expire_time_ms = 0 })

-- A key of a client, and not one of the node's own.
abbrev pub IsUser : Bytes → Type 0
IsUser k = (has_no_bytes k ≡ false) × (has_prefix ignore_prefix k ≡ false)

module _ (d : Disk) where
  -- The mirror and the map have the same records of clients, but for the expiry times.
  pub record Mirrors (m s : LockDb d.Db) : Type 0 where
    pub in_memory : m.storage_type ≡ map_storage
    pub on_disk : s.storage_type ≡ leveldb_storage
    pub agree : (k : Bytes) → IsUser k → get_record d s k ≡ found d (kept (lookup k m.map))
