-- ===== src/Lock/Db/Walk.antt =====
-- phxqueue/lock/lockdb.cpp: `Sync`, the iterators, and the key that the cleaner looks at next. An
-- iterator is the list of the entries from where it stands; to read or move one at its end is
-- undefined in C++, and gives empty strings or leaves it there.
use phxqueue.Common.{ℕ, Bool, true, false, none, some, List, [], ◌∷◌, if◌then◌else◌, length}
use phxqueue.Common.RetCode.{
  RetCode, ret_ok, is_ok, ret_err_no_impl, ret_err_leveldb, ret_err_logic, ret_err_range,
  ret_key_ignore,
}
use phxqueue.Common.Key.{Bytes, bytes_key}
use phxqueue.Common.Dict.{Dict, lookup, upper_bound}
use phxqueue.Lock.Disk.{LocalRecordInfo, ok, Disk}
use phxqueue.Lock.Db.{
  LockDb, map_storage, leveldb_storage, DataType, no_data, ignore_data, user_data, empty_record,
  ignore_prefix, sync_trigger, has_prefix,
}

abbrev rest_of : {A : Type 0} → List A → List A
rest_of [] = []
rest_of (x ∷ xs) = xs

abbrev has_entry : {A : Type 0} → List A → Bool
has_entry [] = false
has_entry (x ∷ xs) = true

abbrev pub key_of : {A : Type 0} → List (Bytes × A) → Bytes
key_of [] = []
key_of ((k, v) ∷ xs) = k

abbrev record_of : Dict Bytes LocalRecordInfo → LocalRecordInfo
record_of [] = empty_record
record_of ((k, v) ∷ xs) = v

abbrev bytes_of : List (Bytes × Bytes) → Bytes
bytes_of [] = []
bytes_of ((k, v) ∷ xs) = v

module _ (d : Disk) where
  open d use {Db, put, entries, parse}

  -- `LockDb::Sync`: a write that the disk is told to flush.
  pub sync : LockDb Db → RetCode × LockDb Db
  sync s = elim s.storage_type [
    | map_storage ↦ (ret_ok, s)
    | leveldb_storage ↦
        let (status, db) = put s.leveldb sync_trigger [] true in
        elim status [
          | ok ↦ (ret_ok, record s { leveldb = db })
          | _ ↦ (ret_err_leveldb, record s { leveldb = db })
        ]
    | _ ↦ (ret_err_no_impl, s)
  ]

  unfoldable pub disk_seek_to_first : LockDb Db → LockDb Db
  disk_seek_to_first s = elim s.storage_type [
    | leveldb_storage ↦ record s { leveldb_it = entries s.leveldb }
    | _ ↦ s
  ]

  unfoldable pub disk_next : LockDb Db → LockDb Db
  disk_next s = elim s.storage_type [
    | leveldb_storage ↦ record s { leveldb_it = rest_of s.leveldb_it }
    | _ ↦ s
  ]

  unfoldable pub disk_valid : LockDb Db → Bool
  disk_valid s = elim s.storage_type [ leveldb_storage ↦ has_entry s.leveldb_it | _ ↦ false ]

  -- `LockDb::DiskGetCurrent`: the code, the key, the value and whether the key is the system's own.
  unfoldable pub disk_get_current : LockDb Db → RetCode × Bytes × Bytes × DataType
  disk_get_current s = elim s.storage_type [
    | leveldb_storage ↦ (
      ret_ok,
      key_of s.leveldb_it,
      bytes_of s.leveldb_it,
      if has_prefix ignore_prefix (key_of s.leveldb_it) then ignore_data else user_data,
    )
    | _ ↦ (ret_err_no_impl, [], [], no_data)
  ]

  pub seek_to_first_record : LockDb Db → LockDb Db
  seek_to_first_record s = elim s.storage_type [
    | map_storage ↦ record s { map_it = s.map }
    | leveldb_storage ↦ disk_seek_to_first s
    | _ ↦ s
  ]

  pub next_record : LockDb Db → LockDb Db
  next_record s = elim s.storage_type [
    | map_storage ↦ record s { map_it = rest_of s.map_it }
    | leveldb_storage ↦ disk_next s
    | _ ↦ s
  ]

  pub valid_record : LockDb Db → Bool
  valid_record s = elim s.storage_type [
    | map_storage ↦ has_entry s.map_it
    | leveldb_storage ↦ disk_valid s
    | _ ↦ false
  ]

  -- What `GetCurrentRecord` makes of an entry of the disk.
  pub current_parsed :
      RetCode × Bytes × Bytes × DataType → RetCode × Bytes × Bytes × LocalRecordInfo
  current_parsed (ret, k, vstr, t) =
      if is_ok ret
      then elim t [
        | ignore_data ↦ (ret_key_ignore, k, vstr, empty_record)
        | _ ↦ elim (parse vstr) [
          | none ↦ (ret_err_logic, k, vstr, empty_record)
          | some r ↦ (ret_ok, k, vstr, r)
        ]
      ]
      else (ret, k, vstr, empty_record)

  -- `LockDb::GetCurrentRecord`.
  pub get_current_record : LockDb Db → RetCode × Bytes × Bytes × LocalRecordInfo
  get_current_record s = elim s.storage_type [
    | map_storage ↦ (ret_ok, key_of s.map_it, [], record_of s.map_it)
    | leveldb_storage ↦ current_parsed (disk_get_current s)
    | _ ↦ (ret_err_no_impl, [], [], empty_record)
  ]

  pub get_size_record : LockDb Db → ℕ
  get_size_record s = elim s.storage_type [ map_storage ↦ length s.map | _ ↦ 0 ]

  -- The first key of the map where the search has come to its end.
  unfoldable pub loop_key : Dict Bytes LocalRecordInfo → Dict Bytes LocalRecordInfo → Bytes
  loop_key m [] = key_of m
  loop_key m ((k, v) ∷ xs) = k

  -- The key that `ForwardLoopKey` goes to from `prev`.
  unfoldable pub next_loop_key : Dict Bytes LocalRecordInfo → Bytes → Bytes
  next_loop_key m prev = elim (lookup prev m) [
    | none ↦ key_of m
    | some r ↦ loop_key m (upper_bound prev m)
  ]

  -- `LockDb::ForwardLoopKey`: the code, the key, and the database with its place moved on.
  unfoldable pub forward_loop_key : LockDb Db → RetCode × Bytes × LockDb Db
  forward_loop_key s = elim s.storage_type [
    | map_storage ↦ elim s.map [
      | [] ↦ (ret_err_range, [], s)
      | _ ↦
          let k = next_loop_key s.map s.prev_loop_key in (ret_ok, k, record s { prev_loop_key = k })
    ]
    | _ ↦ (ret_err_no_impl, [], s)
  ]
