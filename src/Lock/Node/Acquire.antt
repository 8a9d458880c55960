-- ===== src/Lock/Node/Acquire.antt =====
-- `Lock::AcquireLock` of a lease, from the request to the map of the master.
use phxqueue.Common.{ℕ, ◌≡◌, none, some, List}
use phxqueue.Common.RetCode.{RetCode}
use phxqueue.Common.Key.{bytes_key}
use phxqueue.Common.Dict.{lookup}
use phxqueue.Lock.Disk.{Disk}
use phxqueue.Lock.Db.Acquire.{timed}
use phxqueue.Lock.Group.{GroupData}
use phxqueue.Lock.Group.Machine.{LockInfo, LockPaxosArgs, LockOption, asked, execute, no_addr}
use phxqueue.Lock.Group.Machine.Held.{Entry, run}
use phxqueue.Lock.Node.{committed, Propose}

-- The value that is proposed for a request.
abbrev acquiring : LockInfo → LockPaxosArgs
acquiring info = record {
  acquire_lock_req = some info;
  set_string_req = none;
  master_addr = no_addr;
}

module _ (d : Disk) (no_checkpoint : ℕ) (opt : LockOption) where
  -- What phxpaxos says of a value that it has committed: this node has executed it, with that result,
  -- after whatever was chosen before it, and nothing since.
  abbrev pub Executes : Propose d → Type 0
  Executes propose =
      (g : GroupData d.Db) (args : LockPaxosArgs) (result : RetCode)
      → (propose g args).0 ≡ committed result
      → (es : List Entry) × (i : ℕ) × (now : ℕ) × (later : ℕ) × ((execute d no_checkpoint opt
            (run d no_checkpoint opt g es) i (some args) now later).1
          ≡ some result)
        × ((propose g args).1
            ≡ (execute d no_checkpoint opt (run d no_checkpoint opt g es) i (some args) now
                later).3)

  module _ (propose : Propose d) (master : RetCode) (g : GroupData d.Db) (info : LockInfo) where
    -- The key holds the client's record with its lease, of the version of the instance that it was chosen in.
    abbrev pub Holds : GroupData d.Db → Type 0
    Holds h =
        (i : ℕ) × (now : ℕ) × (later : ℕ) × (lookup info.lock_key h.map.map
          ≡ some (timed (asked i info.client_id info.lease_time_ms now) later))
