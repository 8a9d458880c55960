-- ===== src/Lock/Node.antt =====
-- phxqueue/lock/lock.cpp: the requests that a lock node serves, on the group that the hash of the key
-- picks. What phxpaxos answers to a proposal, and the group when it does, is the parameter `propose`;
-- what the node and the configuration know of the master are arguments of `check_master`.
pub mod Release
pub mod Acquire
use phxqueue.Common.{
  ℕ, Bool, true, false, ◌&&◌, ◌||◌, not, Option, none, some, List, [], ◌∷◌, ◌==◌, if◌then◌else◌,
}
use phxqueue.Common.RetCode.{
  RetCode, ret_ok, is_ok, ret_err_key, ret_err_no_master, ret_err_not_master, ret_err_range_addr,
  ret_err_version_not_equal, ret_err_propose, ret_err_propose_timeout, ret_err_propose_fast_reject,
  ret_err_size_too_large,
}
use phxqueue.Common.Int.{ℤ, pos, eqb_ℤ}
use phxqueue.Common.Key.{Bytes, bytes_eq}
use phxqueue.Lock.Disk.{LocalRecordInfo, Disk}
use phxqueue.Lock.Db.{has_no_bytes, is_missing, get_string, get_lock, delete_lock}
use phxqueue.Lock.Group.{GroupData}
use phxqueue.Lock.Group.Machine.{LockInfo, StringInfo, Addr, LockPaxosArgs, no_addr}

-- What `Propose` returns: the value was chosen and executed here with a result, or an error.
pub data Proposed : Type 0 where
  committed : RetCode → Proposed
  timeout too_many_waiting value_too_large other_error : Proposed

-- Where the node believes the master to be.
pub record MasterInfo : Type 0 where
  pub ip : Bytes
  pub port : ℤ

-- "0.0.0.0".
abbrev any_ip : Bytes
any_ip = 48 ∷ 46 ∷ 48 ∷ 46 ∷ 48 ∷ 46 ∷ 48 ∷ []

pub find_master : MasterInfo → List Addr → Option Addr
find_master m [] = none
find_master m (a ∷ addrs) =
    if bytes_eq a.ip m.ip && eqb_ℤ a.paxos_port m.port then some a else find_master m addrs

abbrev redirect : Option Addr → RetCode × Option Addr
redirect none = (ret_err_range_addr, none)
redirect (some a) = (ret_err_not_master, some a)

-- `Lock::CheckMaster`: the code, and where to go instead. The two codes are those of `GetLockConfig` and
-- `GetLockByAddr`, and the list is the addresses of the lock.
pub check_master : Bool → MasterInfo → RetCode → RetCode → List Addr → RetCode × Option Addr
unfolding find_master
check_master is_master m config lock addrs =
    if is_master
    then (ret_ok, none)
    else if has_no_bytes m.ip || eqb_ℤ (pos 0) m.port || bytes_eq any_ip m.ip
    then (ret_err_no_master, none)
    else if not (is_ok config)
    then (config, none)
    else if not (is_ok lock)
    then (lock, none)
    else redirect (find_master m addrs)

-- The code that a client gets for a proposal.
unfoldable pub propose_code : Proposed → RetCode
propose_code (committed result) = result
propose_code timeout = ret_err_propose_timeout
propose_code too_many_waiting = ret_err_propose_fast_reject
propose_code value_too_large = ret_err_size_too_large
propose_code other_error = ret_err_propose

module _ (d : Disk) where
  open d use {Db}

  abbrev pub Propose : Type 0
  Propose = GroupData Db → LockPaxosArgs → Proposed × GroupData Db

  -- `Lock::PaxosSetString`.
  pub paxos_set_string : Propose → GroupData Db → StringInfo → RetCode × GroupData Db
  paxos_set_string propose g info =
      let (answer, g') =
        propose g
          (record { acquire_lock_req = none; set_string_req = some info; master_addr = no_addr }) in
      (propose_code answer, g')

  -- `Lock::PaxosDeleteString`: a string with no lease.
  pub paxos_delete_string : Propose → GroupData Db → Bytes → ℕ → RetCode × GroupData Db
  paxos_delete_string propose g key version =
      paxos_set_string propose g
        (record { key = key; version = version; value = []; lease_time_ms = 0 })

  -- `Lock::PaxosAcquireLock`.
  unfoldable pub paxos_acquire_lock : Propose → GroupData Db → LockInfo → RetCode × GroupData Db
  paxos_acquire_lock propose g info =
      let (answer, g') =
        propose g
          (record { acquire_lock_req = some info; set_string_req = none; master_addr = no_addr }) in
      (propose_code answer, g')

  -- `Lock::GetString`; `master` is the code of `CheckMaster`.
  pub serve_get_string : RetCode → GroupData Db → Bytes → RetCode × Option StringInfo
  serve_get_string master g key =
      if has_no_bytes key
      then (ret_err_key, none)
      else if not (is_ok master)
      then (master, none)
      else let (ret, r) = get_string d g.map key in
        if not (is_ok ret) then (ret, none) else (
          ret,
          some (record {
            key = key;
            version = r.version;
            value = r.value;
            lease_time_ms = r.lease_time_ms;
          }),
        )

  -- `Lock::SetString`.
  pub serve_set_string : Propose → RetCode → GroupData Db → StringInfo → RetCode × GroupData Db
  serve_set_string propose master g info =
      if has_no_bytes info.key
      then (ret_err_key, g)
      else if not (is_ok master)
      then (master, g)
      else paxos_set_string propose g info

  -- `Lock::DeleteString`.
  pub serve_delete_string : Propose → RetCode → GroupData Db → Bytes → ℕ → RetCode × GroupData Db
  serve_delete_string propose master g key version =
      if has_no_bytes key
      then (ret_err_key, g)
      else if not (is_ok master)
      then (master, g)
      else paxos_delete_string propose g key version

  -- `Lock::GetLockInfo`.
  pub serve_get_lock_info : RetCode → GroupData Db → Bytes → RetCode × Option LockInfo
  serve_get_lock_info master g key =
      if has_no_bytes key
      then (ret_err_key, none)
      else if not (is_ok master)
      then (master, none)
      else let (ret, r) = get_lock d g.map key in
        if not (is_ok ret) then (ret, none) else (
          ret,
          some (record {
            lock_key = [];
            version = r.version;
            client_id = r.value;
            lease_time_ms = r.lease_time_ms;
          }),
        )

  -- The end of `Lock::AcquireLock`: after a request with no lease the key is deleted from the map of
  -- this node, and the code is that of the deletion.
  pub finish : LockInfo → RetCode × GroupData Db → RetCode × GroupData Db
  finish info (ret, g) =
      if info.lease_time_ms == 0
      then (let (code, m) = delete_lock d g.map info.lock_key false in (code, record g { map = m }))
      else (ret, g)

  -- `Lock::AcquireLock`.
  pub serve_acquire_lock : Propose → RetCode → GroupData Db → LockInfo → RetCode × GroupData Db
  serve_acquire_lock propose master g info =
      if has_no_bytes info.lock_key
      then (ret_err_key, g)
      else if not (is_ok master)
      then (master, g)
      else let (ret, r) = get_lock d g.map info.lock_key in
        if not (is_missing ret) && not (is_ok ret)
        then (ret, g)
        else if not (is_missing ret) && not (r.version == info.version)
        then (ret_err_version_not_equal, g)
        else finish info (paxos_acquire_lock propose g info)
