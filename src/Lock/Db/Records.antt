-- ===== src/Lock/Db/Records.antt =====
-- The database on the disk: records written and read, where LevelDB and the message format behave as
-- documented.
use phxqueue.Common.{◌≡◌, ◌≢◌, Bool, false, inl, inr, arith, Option-cases}
use phxqueue.Common.RetCode.{ret_ok}
use phxqueue.Common.Key.{Bytes}
use phxqueue.Lock.Disk.{LocalRecordInfo, Disk, Faithful}
use phxqueue.Lock.Db.{
  LockDb, leveldb_storage, has_no_bytes, disk_get, disk_set, parsed, get_record, set_record,
}

module _ (d : Disk) (f : Faithful d) where
  pub disk_get-disk_set :
      (s s' : LockDb d.Db) (k vstr : Bytes) (sync : Bool)
      → s.storage_type ≡ leveldb_storage
      → has_no_bytes k ≡ false
      → disk_set d s k vstr sync ≡ (ret_ok, s')
      → (disk_get d s' k ≡ (ret_ok, vstr)) × (s'.storage_type ≡ leveldb_storage)
  unfolding disk_set disk_get
  disk_get-disk_set s s' k vstr sync t e w =
      ground (arith, f.read-put_self s.leveldb s'.leveldb k vstr sync)

  pub disk_get-disk_set_ne :
      (s s' : LockDb d.Db) (k j vstr : Bytes) (sync : Bool)
      → s.storage_type ≡ leveldb_storage
      → has_no_bytes k ≡ false
      → j ≢ k
      → disk_set d s k vstr sync ≡ (ret_ok, s')
      → disk_get d s' j ≡ disk_get d s j
  unfolding disk_set disk_get
  disk_get-disk_set_ne s s' k j vstr sync t e ne w =
      ground (arith, f.read-put_ne s.leveldb s'.leveldb k j vstr sync)

  -- On the disk, a record that SetRecord has written under a key that is not empty is read back by
  -- GetRecord with its version, value and lease, and with no expiry time.
  pub get_record-set_record :
      (s s' : LockDb d.Db) (k : Bytes) (v : LocalRecordInfo) (sync : Bool)
      → s.storage_type ≡ leveldb_storage
      → has_no_bytes k ≡ false
      → set_record d s k v sync ≡ (ret_ok, s')
      → get_record d s' k ≡ (ret_ok, record v { expire_time_ms = 0 })
  unfolding set_record get_record parsed
  get_record-set_record s s' k v sync t e w =
      elim (Option-cases (d.serialize (record v { expire_time_ms = 0 }))) [
        | inl no_bytes ↦ absurd (ground arith)
        | inr (b, done) ↦ ground (
          arith,
          disk_get-disk_set s s' k b sync t e,
          f.parse-serialize (record v { expire_time_ms = 0 }) b done,
        )
      ]

  -- On the disk, after SetRecord has written under a key that is not empty, GetRecord reads every
  -- other key as before.
  pub get_record-set_record_ne :
      (s s' : LockDb d.Db) (k j : Bytes) (v : LocalRecordInfo) (sync : Bool)
      → s.storage_type ≡ leveldb_storage
      → has_no_bytes k ≡ false
      → j ≢ k
      → set_record d s k v sync ≡ (ret_ok, s')
      → get_record d s' j ≡ get_record d s j
  unfolding set_record get_record disk_set disk_get
  get_record-set_record_ne s s' k j v sync t e ne w =
      elim (Option-cases (d.serialize (record v { expire_time_ms = 0 }))) [
        | inl no_bytes ↦ absurd (ground arith)
        | inr (b, done) ↦ ground (arith, f.read-put_ne s.leveldb s'.leveldb k j b sync)
      ]
