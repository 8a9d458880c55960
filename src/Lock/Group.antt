-- ===== src/Lock/Group.antt =====
-- phxqueue/lock/lockmgr.h, phxqueue/lock/lockmgr.cpp: one paxos group of the lock node, its map, its
-- mirror in LevelDB and its checkpoints. `LockMgr` holds a vector of these, and each call of it takes
-- the index of one. `no_checkpoint` is phxpaxos' constant, `now` the clock.
pub mod Decimal
pub mod Restart
pub mod Machine
pub mod Clean
use phxqueue.Common.{
  ℕ, zero, suc, Bool, true, false, ◌&&◌, ◌||◌, not, Option, none, some, List, [], ◌∷◌, ◌==◌, ltb,
  if◌then◌else◌, length,
}
use phxqueue.Common.RetCode.{RetCode, ret_ok, is_ok}
use phxqueue.Common.Key.{Bytes}
use phxqueue.Lock.Disk.{LocalRecordInfo, Disk}
use phxqueue.Lock.Db.{
  LockDb, DataType, ignore_data, map_storage, leveldb_storage, blank, init, dispose, disk_get,
  disk_set, set_record, add_time, is_missing,
}
use phxqueue.Lock.Db.Walk.{disk_seek_to_first, disk_valid, disk_next, disk_get_current}
use phxqueue.Lock.Group.Decimal.{to_string, strtoul}

-- "__ignore__:__checkpoint__".
abbrev pub key_ignore_checkpoint : Bytes
key_ignore_checkpoint =
    95 ∷ 95 ∷ 105 ∷ 103 ∷ 110 ∷ 111 ∷ 114 ∷ 101 ∷ 95 ∷ 95 ∷ 58 ∷ 95 ∷ 95 ∷ 99 ∷ 104 ∷ 101 ∷ 99 ∷ 107
    ∷ 112 ∷ 111 ∷ 105 ∷ 110 ∷ 116 ∷ 95 ∷ 95 ∷ []

-- "__ignore__:__restart_checkpoint__".
abbrev pub key_ignore_restart_checkpoint : Bytes
key_ignore_restart_checkpoint =
    95 ∷ 95 ∷ 105 ∷ 103 ∷ 110 ∷ 111 ∷ 114 ∷ 101 ∷ 95 ∷ 95 ∷ 58 ∷ 95 ∷ 95 ∷ 114 ∷ 101 ∷ 115 ∷ 116
    ∷ 97 ∷ 114 ∷ 116 ∷ 95 ∷ 99 ∷ 104 ∷ 101 ∷ 99 ∷ 107 ∷ 112 ∷ 111 ∷ 105 ∷ 110 ∷ 116 ∷ 95 ∷ 95 ∷ []

-- "__ignore__.__checkpoint__".
abbrev pub key_ignore_checkpoint_deprecated : Bytes
key_ignore_checkpoint_deprecated =
    95 ∷ 95 ∷ 105 ∷ 103 ∷ 110 ∷ 111 ∷ 114 ∷ 101 ∷ 95 ∷ 95 ∷ 46 ∷ 95 ∷ 95 ∷ 99 ∷ 104 ∷ 101 ∷ 99 ∷ 107
    ∷ 112 ∷ 111 ∷ 105 ∷ 110 ∷ 116 ∷ 95 ∷ 95 ∷ []

-- "__ignore__.__restart_checkpoint__".
abbrev pub key_ignore_restart_checkpoint_deprecated : Bytes
key_ignore_restart_checkpoint_deprecated =
    95 ∷ 95 ∷ 105 ∷ 103 ∷ 110 ∷ 111 ∷ 114 ∷ 101 ∷ 95 ∷ 95 ∷ 46 ∷ 95 ∷ 95 ∷ 114 ∷ 101 ∷ 115 ∷ 116
    ∷ 97 ∷ 114 ∷ 116 ∷ 95 ∷ 99 ∷ 104 ∷ 101 ∷ 99 ∷ 107 ∷ 112 ∷ 111 ∷ 105 ∷ 110 ∷ 116 ∷ 95 ∷ 95 ∷ []

-- `GroupData`.
pub record GroupData (Db : Type 0) : Type 0 where
  pub map : LockDb Db
  pub leveldb : LockDb Db
  pub last_instance_id : ℕ
  pub memory_checkpoint : ℕ
  pub disk_checkpoint : ℕ

module _ (d : Disk) (no_checkpoint : ℕ) where
  open d use {Db, parse}

  pub fresh : GroupData Db
  fresh = record {
    map = blank d;
    leveldb = blank d;
    last_instance_id = no_checkpoint;
    memory_checkpoint = no_checkpoint;
    disk_checkpoint = no_checkpoint;
  }

  -- What stands under a key, or else under the name that the key had before.
  unfoldable pub disk_get_either : LockDb Db → Bytes → Bytes → RetCode × Bytes
  disk_get_either s k deprecated =
      let (ret, vstr) = disk_get d s k in
      if is_missing ret then disk_get d s deprecated else (ret, vstr)

  unfoldable pub checkpoint_of : RetCode × Bytes → RetCode × ℕ
  checkpoint_of (ret, vstr) = (ret, if is_ok ret then strtoul vstr else no_checkpoint)

  -- `LockMgr::ReadDiskCheckpoint`.
  unfoldable pub read_disk_checkpoint : GroupData Db → RetCode × ℕ × GroupData Db
  read_disk_checkpoint g =
      let (ret, cp) =
        checkpoint_of
          (disk_get_either g.leveldb key_ignore_checkpoint key_ignore_checkpoint_deprecated) in
      (ret, cp, record g { disk_checkpoint = cp; memory_checkpoint = cp })

  -- `LockMgr::WriteDiskCheckpoint`.
  unfoldable pub write_disk_checkpoint : GroupData Db → ℕ → RetCode × GroupData Db
  write_disk_checkpoint g cp =
      if no_checkpoint == cp
      then (ret_ok, g)
      else let (ret, db) = disk_set d g.leveldb key_ignore_checkpoint (to_string cp) true in
        if is_ok ret
        then (ret_ok, record g { leveldb = db; disk_checkpoint = cp; memory_checkpoint = cp })
        else (ret, record g { leveldb = db })

  -- `LockMgr::ReadRestartCheckpoint`.
  unfoldable pub read_restart_checkpoint : GroupData Db → RetCode × ℕ
  read_restart_checkpoint g = checkpoint_of (
      disk_get_either g.leveldb key_ignore_restart_checkpoint
        key_ignore_restart_checkpoint_deprecated)

  -- `LockMgr::WriteRestartCheckpoint`.
  pub write_restart_checkpoint : GroupData Db → ℕ → RetCode × GroupData Db
  write_restart_checkpoint g cp =
      if no_checkpoint == cp
      then (ret_ok, g)
      else let (ret, db) = disk_set d g.leveldb key_ignore_restart_checkpoint (to_string cp) true in
        (ret, record g { leveldb = db })

  -- One entry of the mirror goes into the map, with its expiry counted from now; the system's own are
  -- passed over. `none` is a failed `assert`.
  pub recover_entry : LockDb Db → RetCode × Bytes × Bytes × DataType → ℕ → Option (LockDb Db)
  recover_entry m (ret, k, vstr, t) now = if not (is_ok ret) then none else elim t [
    | ignore_data ↦ some m
    | _ ↦ elim (parse vstr) [
      | none ↦ none
      | some r ↦
          some
            (set_record d m k (record r { expire_time_ms = add_time now r.lease_time_ms }) true).1
    ]
  ]

  -- The loop over the mirror, on fuel; the clock is read once for each entry.
  pub recover : ℕ → LockDb Db → LockDb Db → (ℕ → ℕ) → Option (LockDb Db × LockDb Db)
  recover zero s m clock = none
  recover (suc f) s m clock =
      let next = λ (m' : LockDb Db). recover f (disk_next d s) m' clock in
      if disk_valid d s
      then elim (recover_entry m (disk_get_current d s) (clock f)) [
        | none ↦ none
        | some m' ↦ next m'
      ]
      else some (s, m)

  -- The restart checkpoint wins where it lies beyond that of the disk.
  unfoldable pub needs_restart : ℕ → ℕ → Bool
  needs_restart disk restart =
      not (no_checkpoint == restart) && (no_checkpoint == disk || ltb disk restart)

  -- From the checkpoints that are read to the end of a group's turn in `LockMgr::Init`.
  unfoldable pub recover_checkpoints : GroupData Db → Option (GroupData Db)
  recover_checkpoints g =
      let (ret, disk, g') = read_disk_checkpoint g in
      if not (is_missing ret) && not (is_ok ret)
      then none
      else let (code, restart) = read_restart_checkpoint g' in
        let (written, g'') =
          if needs_restart disk restart then write_disk_checkpoint g' restart else (ret_ok, g') in
        some (record g'' { last_instance_id = g''.disk_checkpoint })

  -- A group's turn in `LockMgr::Init`: `none` is a failed `assert`.
  pub init_group : Bytes → (ℕ → ℕ) → Option (GroupData Db)
  init_group directory clock =
      let (ret, s) = init d (blank d) leveldb_storage directory in
      if not (is_ok ret)
      then none
      else let (code, m) = init d (blank d) map_storage [] in
        if not (is_ok code)
        then none
        else let s' = disk_seek_to_first d s in
          elim (recover (suc (length s'.leveldb_it)) s' m clock) [
            | none ↦ none
            | some (s'', m') ↦ recover_checkpoints (record fresh { map = m'; leveldb = s'' })
          ]

  -- A group's turn in `LockMgr::Dispose`: the code of the map's disposal.
  pub dispose_group : GroupData Db → RetCode × GroupData Db
  dispose_group g =
      let (ret, s) = dispose d g.leveldb in
      let (code, m) = dispose d g.map in (code, record g { leveldb = s; map = m })
