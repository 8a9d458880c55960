-- ===== src/Lock/Group/Machine.antt =====
-- phxqueue/lock/locksm.cpp: what a chosen value does to a group, to its map at once (`Execute`) and to
-- its mirror in LevelDB (`ExecuteForCheckpoint`). A value is what the generated parser makes of the
-- bytes, `none` where it refuses them; `result` is what goes to the proposer's context.
pub mod Held
pub mod Versions
pub mod Mirror
pub mod Replay
use phxqueue.Common.{
  ℕ, ◌+◌, ◌-◌, ◌%◌, ◌^◌, Bool, true, false, ◌&&◌, ◌||◌, not, Option, none, some, List, [], ◌∷◌, ltb,
  leb, ◌==◌, if◌then◌else◌,
}
use phxqueue.Common.RetCode.{RetCode, ret_ok, is_ok, ret_err_no_impl}
use phxqueue.Common.Int.{ℤ, pos, eqb_ℤ}
use phxqueue.Common.Key.{Bytes, bytes_eq}
use phxqueue.Lock.Disk.{LocalRecordInfo, Disk}
use phxqueue.Lock.Db.{
  LockDb, RecordKeyInfo, StorageType, map_storage, leveldb_storage, has_no_bytes, uint64_max,
  add_time, acquire_lock, version_set_string,
}
use phxqueue.Lock.Group.{GroupData, write_disk_checkpoint}

-- `comm::proto::LockInfo`, `StringInfo` and `Addr`, and `proto::LockPaxosArgs`.
pub record LockInfo : Type 0 where
  pub lock_key : Bytes
  pub version : ℕ
  pub client_id : Bytes
  pub lease_time_ms : ℕ

pub record StringInfo : Type 0 where
  pub key : Bytes
  pub version : ℕ
  pub value : Bytes
  pub lease_time_ms : ℕ

pub record Addr : Type 0 where
  pub ip : Bytes
  pub port : ℤ
  pub paxos_port : ℤ

abbrev pub no_addr : Addr
no_addr = record { ip = []; port = pos 0; paxos_port = pos 0 }

pub record LockPaxosArgs : Type 0 where
  pub acquire_lock_req : Option LockInfo
  pub set_string_req : Option StringInfo
  pub master_addr : Addr

abbrev addr_eq : Addr → Addr → Bool
addr_eq a b = bytes_eq a.ip b.ip && eqb_ℤ a.port b.port && eqb_ℤ a.paxos_port b.paxos_port

abbrev pub lock_key_info : LockInfo → RecordKeyInfo
lock_key_info i = record { version = i.version; key = i.lock_key }

abbrev pub string_key_info : StringInfo → RecordKeyInfo
string_key_info i = record { version = i.version; key = i.key }

-- The record that a request asks for: its version is the instance that it was chosen in.
abbrev pub asked : ℕ → Bytes → ℕ → ℕ → LocalRecordInfo
asked instance_id value lease now = record {
  version = instance_id;
  value = value;
  lease_time_ms = lease;
  expire_time_ms = if uint64_max == lease then 0 else add_time now lease;
}

-- What the node is set up with.
pub record LockOption : Type 0 where
  pub no_leveldb : Bool
  pub checkpoint_interval : ℕ
  pub self_addr : Addr

module _ (d : Disk) (no_checkpoint : ℕ) where
  open d use {Db}

  -- A write to the map, or to the mirror together with the checkpoint that it moves.
  unfoldable pub apply :
      StorageType
      → GroupData Db
      → ℕ
      → Bool
      → (LockDb Db → RetCode × LockDb Db)
      → RetCode × GroupData Db
  apply map_storage g instance_id sync write =
      let (ret, m) = write g.map in (ret, record g { map = m; last_instance_id = instance_id })
  apply leveldb_storage g instance_id sync write =
      let (ret, s) = write g.leveldb in
      let g' = record g { leveldb = s } in
      if is_ok ret
      then if sync
        then write_disk_checkpoint d no_checkpoint g' instance_id
        else (ret, record g' { memory_checkpoint = instance_id })
      else (ret, g')
  apply t g instance_id sync write = (ret_err_no_impl, g)

  -- `DoExecute`: the result, if there was a request, and the group. The clock is read once here and
  -- once by the database.
  unfoldable pub do_execute :
      StorageType → GroupData Db → ℕ → LockPaxosArgs → Bool → ℕ → ℕ → Option RetCode × GroupData Db
  do_execute t g instance_id args sync now later = elim args.acquire_lock_req [
    | some info ↦
        let v = asked instance_id info.client_id info.lease_time_ms now in
        let (ret, g') =
          apply t g instance_id sync (λ s. acquire_lock d s (lock_key_info info) v sync later) in
        (some ret, g')
    | none ↦ elim args.set_string_req [
      | some info ↦
          let v = asked instance_id info.value info.lease_time_ms now in
          let (ret, g') =
            apply t g instance_id sync
              (λ s. version_set_string d s (string_key_info info) v sync later) in
          (some ret, g')
      | none ↦ (none, g)
    ]
  ]

  -- `LockSM::Execute`: whether the value could be read, the result, whether the node gives up being
  -- the master (if it runs), and the group.
  unfoldable pub execute :
      LockOption
      → GroupData Db
      → ℕ
      → Option LockPaxosArgs
      → ℕ
      → ℕ
      → Bool × Option RetCode × Bool × GroupData Db
  execute opt g instance_id none now later = (false, none, false, g)
  execute opt g instance_id (some args) now later =
      let (result, g') = do_execute map_storage g instance_id args false now later in
      (
        true,
        result,
        not (has_no_bytes args.master_addr.ip) && not (addr_eq opt.self_addr args.master_addr),
        g',
      )

  -- Whether the mirror is flushed: enough instances since the last checkpoint, in 64 bits, or a minute
  -- since the last flush.
  pub needs_sync : LockOption → GroupData Db → ℕ → ℕ → ℕ → Bool
  needs_sync opt g instance_id last_sync_ms now =
      leb opt.checkpoint_interval ((instance_id + 2 ^ 64 - g.disk_checkpoint) % 2 ^ 64)
      || ltb (add_time last_sync_ms 60000) now

  -- `LockSM::ExecuteForCheckpoint`: whether it succeeded, the time of the last flush, and the group.
  pub execute_for_checkpoint :
      LockOption → GroupData Db → ℕ → Option LockPaxosArgs → ℕ → ℕ → ℕ → ℕ → Bool × ℕ × GroupData Db
  execute_for_checkpoint opt g instance_id value last_sync_ms tested now later =
      if opt.no_leveldb
      then (true, last_sync_ms, g)
      else let sync = needs_sync opt g instance_id last_sync_ms tested in
        let last = if sync then now else last_sync_ms in
        elim value [
          | none ↦ (false, last, g)
          | some args ↦
              let (result, g') = do_execute leveldb_storage g instance_id args sync now later in
              (true, last, g')
        ]

  -- `LockSM::GetCheckpointInstanceID`.
  pub get_checkpoint_instance_id : GroupData Db → ℕ
  get_checkpoint_instance_id g = g.disk_checkpoint
