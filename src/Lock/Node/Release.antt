-- ===== src/Lock/Node/Release.antt =====
-- What `Lock::AcquireLock` does once its request has come to the master.
use phxqueue.Common.{
  ◌≡◌, refl, true, false, none, arith, ◌==◌, if◌then◌else◌, Option-cases, inl, inr,
}
use phxqueue.Common.RetCode.{RetCode, ret_ok, is_ok, ret_err_version_not_equal}
use phxqueue.Common.Key.{Bytes, bytes_key, bytes_eq}
use phxqueue.Common.Dict.{lookup, erase, lookup-erase}
use phxqueue.Lock.Disk.{Disk}
use phxqueue.Lock.Db.{map_storage, has_no_bytes, found}
use phxqueue.Lock.Db.Acquire.{grants, get_lock-memory, delete_lock-memory}
use phxqueue.Lock.Group.{GroupData}
use phxqueue.Lock.Group.Machine.{LockInfo}
use phxqueue.Lock.Node.{Propose, paxos_acquire_lock, finish, serve_acquire_lock}

module _ (d : Disk) where
  finish_release :
      (info : LockInfo) (p : RetCode × GroupData d.Db)
      → p.1.map.storage_type ≡ map_storage
      → has_no_bytes info.lock_key ≡ false
      → info.lease_time_ms ≡ 0
      → finish d info p
        ≡ (ret_ok, record p.1 { map = record p.1.map { map = erase info.lock_key p.1.map.map } })
  unfolding finish
  finish_release info (ret, g) t key lease =
      let none_left : info.lease_time_ms == 0 ≡ true = ground arith in
      rw (none_left, delete_lock-memory d g.map info.lock_key false (t, key))

module _ (d : Disk) (propose : Propose d) (master : RetCode) (g : GroupData d.Db)
    (info : LockInfo) where
  -- AcquireLock on the master, for a key that is not empty, with the group's map in memory. If the key is
  -- free or its record has the version that the request names, the request is proposed, and what comes
  -- of it goes to `finish`; otherwise the code says that the versions differ, nothing is proposed and
  -- the group stays as it is.
  pub serve_acquire_lock-master :
      g.map.storage_type ≡ map_storage
      → has_no_bytes info.lock_key ≡ false
      → is_ok master ≡ true
      → serve_acquire_lock d propose master g info ≡ (
          if grants (lookup info.lock_key g.map.map) info.version
          then finish d info (paxos_acquire_lock d propose g info)
          else (ret_err_version_not_equal, g))
  unfolding serve_acquire_lock found
  serve_acquire_lock-master t key ok =
      let got = get_lock-memory d g.map info.lock_key (t, key) in
      elim (Option-cases (lookup info.lock_key g.map.map)) [
        | inl free ↦ rw (key, ok, got, free)
        | inr (r, held) ↦ rw (key, ok, got, held) (ground arith)
      ]

  -- A request with no lease, which gives the lock back, of the version that the key has on the master or
  -- of a free key, with a key that is not empty and the maps in memory. Whatever comes of the proposal,
  -- an error of phxpaxos or the refusal of another version included, the code is RET_OK and the key is
  -- deleted from the map of the master, though the value may not have been chosen and the key may hold
  -- the lock of another client by then. All other keys hold what they held after the proposal.
  pub serve_acquire_lock-release :
      (j : Bytes)
      → g.map.storage_type ≡ map_storage
      → has_no_bytes info.lock_key ≡ false
      → is_ok master ≡ true
      → grants (lookup info.lock_key g.map.map) info.version ≡ true
      → info.lease_time_ms ≡ 0
      → (paxos_acquire_lock d propose g info).1.map.storage_type ≡ map_storage
      → let (ret, g') = serve_acquire_lock d propose master g info in
        (ret ≡ ret_ok)
        × (lookup j g'.map.map ≡ (
            if bytes_eq j info.lock_key
            then none
            else lookup j (paxos_acquire_lock d propose g info).1.map.map))
  serve_acquire_lock-release j t key ok granted lease t' =
      let p = paxos_acquire_lock d propose g info in
      rw (serve_acquire_lock-master t key ok, granted, finish_release d info p t' key lease)
        (refl, lookup-erase j info.lock_key p.1.map.map)
