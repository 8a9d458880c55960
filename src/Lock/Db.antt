-- ===== src/Lock/Db.antt =====
-- phxqueue/lock/lockdb.cpp: records under string keys, in memory (`map_storage`) or in LevelDB
-- (`leveldb_storage`). Strings and locks share one space of keys, since both of their prefixes are
-- empty. `now` is the reading of the steady clock that a call takes.
pub mod Walk
pub mod Acquire
pub mod Records
pub mod Loop
pub mod Mirror
use phxqueue.Common.{
  ℕ, ◌+◌, ◌%◌, ◌^◌, Bool, true, false, ◌&&◌, ◌||◌, not, Option, none, some, List, [], ◌∷◌, ◌++◌,
  ltb, ◌==◌, if◌then◌else◌, length,
}
use phxqueue.Common.RetCode.{
  RetCode, ret_ok, is_ok, ret_err_no_impl, ret_err_key, ret_err_leveldb, ret_err_key_not_exist,
  ret_err_version_not_equal, ret_err_logic, ret_err_protobuf_parse, ret_err_protobuf_serialize,
  ret_err_range, ret_key_ignore,
}
use phxqueue.Common.Int.{ℤ, pos, negsuc}
use phxqueue.Common.Key.{Bytes, bytes_key, bytes_eq}
use phxqueue.Common.Dict.{Dict, lookup, insert, erase, upper_bound}
use phxqueue.Lock.Disk.{LocalRecordInfo, Status, ok, not_found, failed, Disk}

pub data StorageType : Type 0 where
  no_storage map_storage leveldb_storage max_storage : StorageType

pub data DataType : Type 0 where
  no_data ignore_data user_data max_data : DataType

-- `proto::RecordKeyInfo`.
pub record RecordKeyInfo : Type 0 where
  pub version : ℕ
  pub key : Bytes

-- UINT64_MAX, also written `-1`: any version, or a lease with no end.
abbrev pub uint64_max : ℕ
uint64_max = 18_446_744_073_709_551_615

abbrev pub empty_record : LocalRecordInfo
empty_record = record { version = 0; value = []; lease_time_ms = 0; expire_time_ms = 0 }

pub record LockDb (Db : Type 0) : Type 0 where
  pub storage_type : StorageType
  pub map : Dict Bytes LocalRecordInfo
  pub map_it : Dict Bytes LocalRecordInfo
  pub leveldb : Db
  pub leveldb_it : List (Bytes × Bytes)
  pub prev_loop_key : Bytes

abbrev pub has_no_bytes : Bytes → Bool
has_no_bytes [] = true
has_no_bytes (b ∷ bs) = false

-- A 64-bit sum.
abbrev pub add_time : ℕ → ℕ → ℕ
add_time a b = (a + b) % 2 ^ 64

-- The code is `RET_ERR_KEY_NOT_EXIST`.
abbrev pub is_missing : RetCode → Bool
is_missing (pos n) = n == 10104
is_missing (negsuc n) = false

-- "__ignore__", the prefix of the system's own keys, and the key that `Sync` writes.
abbrev pub ignore_prefix : Bytes
ignore_prefix = 95 ∷ 95 ∷ 105 ∷ 103 ∷ 110 ∷ 111 ∷ 114 ∷ 101 ∷ 95 ∷ 95 ∷ []

abbrev pub sync_trigger : Bytes
sync_trigger =
    ignore_prefix
    ++ 58 ∷ 95 ∷ 95 ∷ 115 ∷ 121 ∷ 110 ∷ 99 ∷ 95 ∷ 116 ∷ 114 ∷ 105 ∷ 103 ∷ 103 ∷ 101 ∷ 114 ∷ 95 ∷ 95
      ∷ []

abbrev pub has_prefix : Bytes → Bytes → Bool
has_prefix [] k = true
has_prefix (p ∷ ps) [] = false
has_prefix (p ∷ ps) (b ∷ bs) = p == b && has_prefix ps bs

module _ (d : Disk) where
  open d use {Db, null_db, open_db, read, put, delete, entries, parse, serialize}

  -- A database that has not been initialised.
  pub blank : LockDb Db
  blank = record {
    storage_type = no_storage;
    map = [];
    map_it = [];
    leveldb = null_db;
    leveldb_it = [];
    prev_loop_key = [];
  }

  -- `LockDb::Init`.
  pub init : LockDb Db → StorageType → Bytes → RetCode × LockDb Db
  init s map_storage file = (ret_ok, record s { storage_type = map_storage })
  init s leveldb_storage file =
      let (status, db) = open_db file in
      elim status [
        | ok ↦ (ret_ok, record s { storage_type = leveldb_storage; leveldb = db })
        | _ ↦ (ret_err_leveldb, record s { storage_type = leveldb_storage; leveldb = db })
      ]
  init s t file = (ret_err_no_impl, record s { storage_type = t })

  -- `LockDb::Dispose`.
  pub dispose : LockDb Db → RetCode × LockDb Db
  dispose s = elim s.storage_type [
    | map_storage ↦ (ret_ok, record s { map = [] })
    | leveldb_storage ↦ (ret_ok, record s { leveldb = null_db })
    | _ ↦ (ret_err_no_impl, s)
  ]

  -- `LockDb::DiskGet`.
  unfoldable pub disk_get : LockDb Db → Bytes → RetCode × Bytes
  disk_get s k = if has_no_bytes k then (ret_err_key, []) else elim s.storage_type [
    | leveldb_storage ↦
        let (status, v) = read s.leveldb k in
        elim status [
          | ok ↦ (ret_ok, v)
          | not_found ↦ (ret_err_key_not_exist, v)
          | failed ↦ (ret_err_leveldb, v)
        ]
    | _ ↦ (ret_err_no_impl, [])
  ]

  -- `LockDb::DiskSet`.
  unfoldable pub disk_set : LockDb Db → Bytes → Bytes → Bool → RetCode × LockDb Db
  disk_set s k v sync = if has_no_bytes k then (ret_err_key, s) else elim s.storage_type [
    | leveldb_storage ↦
        let (status, db) = put s.leveldb k v sync in
        elim status [
          | ok ↦ (ret_ok, record s { leveldb = db })
          | _ ↦ (ret_err_leveldb, record s { leveldb = db })
        ]
    | _ ↦ (ret_err_no_impl, s)
  ]

  -- `LockDb::DiskDelete`.
  pub disk_delete : LockDb Db → Bytes → Bool → RetCode × LockDb Db
  disk_delete s k sync = if has_no_bytes k then (ret_err_key, s) else elim s.storage_type [
    | leveldb_storage ↦
        let (status, db) = delete s.leveldb k sync in
        elim status [
          | ok ↦ (ret_ok, record s { leveldb = db })
          | not_found ↦ (ret_err_key_not_exist, record s { leveldb = db })
          | failed ↦ (ret_err_leveldb, record s { leveldb = db })
        ]
    | _ ↦ (ret_err_no_impl, s)
  ]

  -- What `GetRecord` makes of the bytes that `DiskGet` found.
  unfoldable pub parsed : RetCode × Bytes → RetCode × LocalRecordInfo
  parsed (ret, vstr) =
      if is_ok ret
      then elim (parse vstr) [
        | none ↦ (ret_err_protobuf_parse, empty_record)
        | some r ↦ (ret_ok, r)
      ]
      else (ret, empty_record)

  unfoldable pub found : Option LocalRecordInfo → RetCode × LocalRecordInfo
  found none = (ret_err_key_not_exist, empty_record)
  found (some r) = (ret_ok, r)

  -- `LockDb::GetRecord`; the record is an empty one where the code is not RET_OK.
  unfoldable pub get_record : LockDb Db → Bytes → RetCode × LocalRecordInfo
  get_record s k = if has_no_bytes k then (ret_err_key, empty_record) else elim s.storage_type [
    | map_storage ↦ found (lookup k s.map)
    | leveldb_storage ↦ parsed (disk_get s k)
    | _ ↦ (ret_err_no_impl, empty_record)
  ]

  -- `LockDb::SetRecord`: what goes to the disk has no expiry time.
  unfoldable pub set_record : LockDb Db → Bytes → LocalRecordInfo → Bool → RetCode × LockDb Db
  set_record s k v sync = if has_no_bytes k then (ret_err_key, s) else elim s.storage_type [
    | map_storage ↦ (ret_ok, record s { map = insert k v s.map })
    | leveldb_storage ↦ elim (serialize (record v { expire_time_ms = 0 })) [
      | none ↦ (ret_err_protobuf_serialize, s)
      | some vstr ↦ disk_set s k vstr sync
    ]
    | _ ↦ (ret_err_no_impl, s)
  ]

  -- `LockDb::DeleteRecord`.
  unfoldable pub delete_record : LockDb Db → Bytes → Bool → RetCode × LockDb Db
  delete_record s k sync = if has_no_bytes k then (ret_err_key, s) else elim s.storage_type [
    | map_storage ↦ (ret_ok, record s { map = erase k s.map })
    | leveldb_storage ↦ disk_delete s k sync
    | _ ↦ (ret_err_no_impl, s)
  ]

  -- `GetString`, `SetString`, `DeleteString` and the same for locks: the prefixes are both empty.
  unfoldable pub get_string : LockDb Db → Bytes → RetCode × LocalRecordInfo
  get_string s k = if has_no_bytes k then (ret_err_key, empty_record) else get_record s ([] ++ k)

  unfoldable pub set_string : LockDb Db → Bytes → LocalRecordInfo → Bool → RetCode × LockDb Db
  set_string s k v sync = if has_no_bytes k then (ret_err_key, s) else set_record s ([] ++ k) v sync

  unfoldable pub delete_string : LockDb Db → Bytes → Bool → RetCode × LockDb Db
  delete_string s k sync =
      if has_no_bytes k then (ret_err_key, s) else delete_record s ([] ++ k) sync

  unfoldable pub get_lock : LockDb Db → Bytes → RetCode × LocalRecordInfo
  get_lock s k = if has_no_bytes k then (ret_err_key, empty_record) else get_record s ([] ++ k)

  unfoldable pub set_lock : LockDb Db → Bytes → LocalRecordInfo → Bool → RetCode × LockDb Db
  set_lock s k v sync = if has_no_bytes k then (ret_err_key, s) else set_record s ([] ++ k) v sync

  unfoldable pub delete_lock : LockDb Db → Bytes → Bool → RetCode × LockDb Db
  delete_lock s k sync = if has_no_bytes k then (ret_err_key, s) else delete_record s ([] ++ k) sync

  -- The copy that is stored: its expiry is counted from now, unless the lease has no end.
  unfoldable pub leased : LocalRecordInfo → ℕ → LocalRecordInfo
  leased v now = record v {
    expire_time_ms = if v.lease_time_ms == uint64_max then 0 else add_time now v.lease_time_ms;
  }

  -- `LockDb::VersionSetString`: a lease of zero deletes.
  unfoldable pub version_set_string :
      LockDb Db → RecordKeyInfo → LocalRecordInfo → Bool → ℕ → RetCode × LockDb Db
  version_set_string s info v sync now =
      let (ret, localv) = get_string s info.key in
      if not (is_missing ret) && not (is_ok ret)
      then (ret, s)
      else if not (is_missing ret)
          && not (info.version == uint64_max)
          && not (localv.version == info.version)
      then (ret_err_version_not_equal, s)
      else if v.lease_time_ms == 0
      then delete_string s info.key sync
      else set_string s info.key (leased v now) sync

  -- `LockDb::VersionDeleteString`.
  pub version_delete_string : LockDb Db → RecordKeyInfo → Bool → RetCode × LockDb Db
  version_delete_string s info sync =
      let (ret, localv) = get_string s info.key in
      if is_missing ret
      then (ret_ok, s)
      else if not (is_ok ret)
      then (ret, s)
      else if not (info.version == uint64_max) && not (localv.version == info.version)
      then (ret_err_version_not_equal, s)
      else delete_string s info.key sync

  -- `LockDb::AcquireLock` on a record: no version stands for any other.
  unfoldable pub acquire_lock :
      LockDb Db → RecordKeyInfo → LocalRecordInfo → Bool → ℕ → RetCode × LockDb Db
  acquire_lock s info v sync now =
      let (ret, localv) = get_lock s info.key in
      if not (is_missing ret) && not (is_ok ret)
      then (ret, s)
      else if not (is_missing ret) && not (localv.version == info.version)
      then (ret_err_version_not_equal, s)
      else if v.lease_time_ms == 0
      then delete_lock s info.key sync
      else set_lock s info.key (leased v now) sync

  -- `LockDb::AcquireLock` on a serialised record.
  pub acquire_lock_bytes : LockDb Db → RecordKeyInfo → Bytes → Bool → ℕ → RetCode × LockDb Db
  acquire_lock_bytes s info vstr sync now = elim s.storage_type [
    | leveldb_storage ↦ elim (parse vstr) [
      | none ↦ (ret_err_logic, s)
      | some v ↦ acquire_lock s info v sync now
    ]
    | _ ↦ (ret_err_no_impl, s)
  ]
