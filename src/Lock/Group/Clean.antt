-- ===== src/Lock/Group/Clean.antt =====
-- phxqueue/lock/cleanthread.cpp: the thread that proposes to delete locks whose lease has run out, and
-- that writes restart checkpoints while a group is idle. What phxpaxos does with a proposal, with all
-- else that happens to the group before it returns, is the parameter `propose`.
pub mod Expiry
use phxqueue.Common.{
  ℕ, zero, suc, ◌+◌, ◌-◌, ◌*◌, ◌%◌, ◌^◌, Bool, true, false, ◌&&◌, ◌||◌, not, Option, none, some,
  List, [], ◌∷◌, ◌==◌, ltb, if◌then◌else◌,
}
use phxqueue.Common.RetCode.{RetCode, ret_ok, is_ok}
use phxqueue.Common.Int.{pos, negsuc}
use phxqueue.Common.Key.{Bytes}
use phxqueue.Lock.Disk.{LocalRecordInfo, Disk}
use phxqueue.Lock.Db.{LockDb, uint64_max, get_record}
use phxqueue.Lock.Db.Walk.{sync, get_size_record, forward_loop_key}
use phxqueue.Lock.Group.{GroupData, write_restart_checkpoint}
use phxqueue.Lock.Group.Machine.{LockInfo, LockPaxosArgs, no_addr}

-- "__lock__:__clean_thread__".
abbrev pub client_id_clean_thread : Bytes
client_id_clean_thread =
    95 ∷ 95 ∷ 108 ∷ 111 ∷ 99 ∷ 107 ∷ 95 ∷ 95 ∷ 58 ∷ 95 ∷ 95 ∷ 99 ∷ 108 ∷ 101 ∷ 97 ∷ 110 ∷ 95 ∷ 116
    ∷ 104 ∷ 114 ∷ 101 ∷ 97 ∷ 100 ∷ 95 ∷ 95 ∷ []

abbrev pub is_ignored : RetCode → Bool
is_ignored (pos n) = n == 10107
is_ignored (negsuc n) = false

-- The request that deletes a lock in the version that it has.
abbrev pub clean_args : Bytes → LocalRecordInfo → LockPaxosArgs
clean_args k r = record {
  acquire_lock_req = some (record {
    lock_key = k;
    version = r.version;
    client_id = client_id_clean_thread;
    lease_time_ms = 0;
  });
  set_string_req = none;
  master_addr = no_addr;
}

-- A lease that has an end and has come to it.
abbrev pub is_expired : LocalRecordInfo → ℕ → Bool
is_expired r now = not (uint64_max == r.lease_time_ms) && ltb r.expire_time_ms now

abbrev one_if : Bool → ℕ
one_if true = 1
one_if false = 0

pub record CleanOption : Type 0 where
  pub max_clean_lock_num : ℕ
  pub clean_interval_s : ℕ
  pub idle_write_checkpoint_interval_s : ℕ

module _ (d : Disk) (no_checkpoint : ℕ) where
  open d use {Db}

  -- What becomes of the record that `GetRecord` found: the request to propose, and whether the key
  -- counts.
  unfoldable pub judge : Bytes → RetCode × LocalRecordInfo → ℕ → Option LockPaxosArgs × Bool
  judge k (ret, r) now =
      if is_ignored ret
      then (none, false)
      else if not (is_ok ret)
      then (none, true)
      else if is_expired r now
      then (some (clean_args k r), true)
      else (none, true)

  -- A round of `CleanRecord` up to its proposal.
  unfoldable pub next_stale : LockDb Db → ℕ → (Option LockPaxosArgs × Bool) × LockDb Db
  next_stale m now =
      let (ret, k, m') = forward_loop_key d m in
      if not (is_ok ret) then ((none, false), m') else (judge k (get_record d m' k) now, m')

  -- The rounds of `CleanRecord`: how many are left, how many are done, and the keys seen and cleaned.
  pub clean_rounds :
      (GroupData Db → LockPaxosArgs → Bool × GroupData Db)
      → ℕ
      → ℕ
      → ℕ
      → ℕ × ℕ × GroupData Db
      → ℕ × ℕ × GroupData Db
  clean_rounds propose zero i now s = s
  clean_rounds propose (suc left) i now (keys, cleaned, g) =
      let ((args, seen), m) = next_stale g.map now in
      let g' = record g { map = m } in
      let keys' = keys + one_if seen in
      let rest = λ (s : ℕ × ℕ × GroupData Db). clean_rounds propose left (i + 1) now s in
      if ltb i (get_size_record d g.map)
      then elim args [
        | none ↦ rest (keys', cleaned, g')
        | some a ↦ let (chosen, g'') = propose g' a in rest (keys', cleaned + one_if chosen, g'')
      ]
      else (keys, cleaned, g)

  -- `CleanThread::CleanRecord`; the counts are left as they were where the node is not the master.
  pub clean_record :
      CleanOption
      → (GroupData Db → LockPaxosArgs → Bool × GroupData Db)
      → Bool
      → ℕ
      → ℕ × ℕ × GroupData Db
      → ℕ × ℕ × GroupData Db
  clean_record opt propose is_master now (keys, cleaned, g) =
      if not is_master
      then (keys, cleaned, g)
      else clean_rounds propose opt.max_clean_lock_num 0 now (0, 0, g)

  -- The test of `CleanThread::WriteRestartCheckpoint`, in 64 bits.
  pub is_idle : GroupData Db → ℕ → Bool
  is_idle g now_instance_id =
      g.last_instance_id == g.memory_checkpoint
      && ltb ((g.memory_checkpoint + 1) % 2 ^ 64) now_instance_id
      && not (no_checkpoint == now_instance_id)

  -- `CleanThread::WriteRestartCheckpoint`: the mirror is flushed first.
  pub write_restart_if_idle : GroupData Db → ℕ → RetCode × GroupData Db
  write_restart_if_idle g now_instance_id =
      if is_idle g now_instance_id
      then (let (ret, s) = sync d g.leveldb in
          write_restart_checkpoint d no_checkpoint (record g { leveldb = s }) (now_instance_id - 1))
      else (ret_ok, g)
