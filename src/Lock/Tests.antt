-- ===== src/Lock/Tests.antt =====
-- The theorems on the lock node at concrete inputs.
mod Mirror
use phxqueue.Common.{
  ℕ, Option, ◌<◌, ◌≤◌, ◌≡◌, refl, ◌≢◌, ◌⊎◌, inr, true, false, ◌&&◌, none, some, [], ◌∷◌, arith,
  if◌then◌else◌,
}
use phxqueue.Common.RetCode.{RetCode, ret_ok, is_ok, ret_err_version_not_equal}
use phxqueue.Common.Int.{pos}
use phxqueue.Common.Key.{Bytes, bytes_key, bytes_eq_iff}
use phxqueue.Common.Dict.{Dict, lookup}
use phxqueue.Lock.Disk.{LocalRecordInfo}
use phxqueue.Lock.Sample.{sample, sample-Faithful, to_bytes}
use phxqueue.Lock.Db.{
  LockDb, RecordKeyInfo, map_storage, leveldb_storage, leased, found, get_record, set_record,
  acquire_lock, version_set_string, get_lock, set_lock, disk_set, disk_get,
}
use phxqueue.Lock.Db.Acquire.{
  granted, timed, acquire_lock-memory, acquire_lock-held, version_set_string-held,
  acquire_lock-once,
}
use phxqueue.Lock.Db.Records.{get_record-set_record, get_record-set_record_ne}
use phxqueue.Lock.Db.Walk.{forward_loop_key, next_loop_key}
use phxqueue.Lock.Db.Loop.{loop_keys, forward_loop_key-round, forward_loop_key-start}
use phxqueue.Lock.Group.{
  GroupData, write_disk_checkpoint, read_disk_checkpoint, disk_get_either, checkpoint_of,
  read_restart_checkpoint, needs_restart, recover, recover_checkpoints,
}
use phxqueue.Lock.Group.Decimal.{to_string, strtoul}
use phxqueue.Lock.Group.Restart.{
  read_disk_checkpoint-write_disk_checkpoint, IsAhead, recover_checkpoints_meet, recover-restores,
  restored,
}
use phxqueue.Lock.Group.Machine.{
  LockInfo, LockPaxosArgs, LockOption, Addr, asked, apply, do_execute, execute,
}
use phxqueue.Lock.Group.Machine.Held.{Entry, run, execute_fences}
use phxqueue.Lock.Group.Machine.Versions.{run_versions}
use phxqueue.Lock.Group.Clean.{next_stale, judge, clean_args}
use phxqueue.Lock.Node.{
  Proposed, committed, other_error, Propose, timeout, paxos_acquire_lock, serve_acquire_lock,
}
use phxqueue.Lock.Node.Release.{serve_acquire_lock-release}
use phxqueue.Lock.Group.Clean.Expiry.{next_stale-spares}

abbrev Files : Type 0
Files = Dict Bytes Bytes

abbrev a_key : Bytes
a_key = 97 ∷ []

abbrev b_key : Bytes
b_key = 98 ∷ []

abbrev c_key : Bytes
c_key = 99 ∷ []

abbrev ours : LocalRecordInfo
ours = record { version = 5; value = 7 ∷ []; lease_time_ms = 100; expire_time_ms = 300 }

abbrev theirs : LocalRecordInfo
theirs = record { version = 6; value = 8 ∷ []; lease_time_ms = 200; expire_time_ms = 900 }

abbrev memory : Dict Bytes LocalRecordInfo → Bytes → LockDb Files
memory m prev = record {
  storage_type = map_storage;
  map = m;
  map_it = [];
  leveldb = [];
  leveldb_it = [];
  prev_loop_key = prev;
}

abbrev on_disk : Files → LockDb Files
on_disk db = record {
  storage_type = leveldb_storage;
  map = [];
  map_it = [];
  leveldb = db;
  leveldb_it = [];
  prev_loop_key = [];
}

abbrev at_first : Files → LockDb Files
at_first db = record (on_disk db) { leveldb_it = db }

abbrev three : Dict Bytes LocalRecordInfo
three = (a_key, ours) ∷ (b_key, theirs) ∷ (c_key, ours) ∷ []

-- A request on the first of three locks that names its version.
acquire_lock-held_example :
    let (ret, s') =
      acquire_lock sample
        (memory three [])
        (record { version = 5; key = a_key })
        theirs
        true
        1000 in
    (ret ≡ ret_ok)
    × (lookup a_key s'.map ≡ granted sample theirs 1000)
    × (s'.storage_type ≡ map_storage)
acquire_lock-held_example =
    acquire_lock-held sample (memory three []) (record { version = 5; key = a_key }) theirs true
      1000 a_key (refl, refl)

version_set_string-held_example :
    let (ret, s') =
      version_set_string sample
        (memory three [])
        (record { version = 4; key = a_key })
        theirs
        true
        1000 in
    (ret ≡ ret_err_version_not_equal)
    × (lookup a_key s'.map ≡ some ours)
    × (s'.storage_type ≡ map_storage)
version_set_string-held_example =
    version_set_string-held sample (memory three []) (record { version = 4; key = a_key }) theirs
      true 1000 a_key (refl, refl)

abbrev a_five : RecordKeyInfo
a_five = record { version = 5; key = a_key }

abbrev after_theirs : LockDb Files
after_theirs = memory ((a_key, timed theirs 1000) ∷ (b_key, theirs) ∷ (c_key, ours) ∷ []) []

acquire_lock-once_example :
    acquire_lock sample after_theirs a_five ours true 1001
    ≡ (ret_err_version_not_equal, after_theirs)
unfolding leased
acquire_lock-once_example =
    acquire_lock-once sample (memory three []) after_theirs a_five theirs ours true 1000 1001
      (refl, refl)
      (acquire_lock-memory sample (memory three []) a_five theirs true 1000 (refl, refl))
      (omega arith) (omega arith)

b-ne-a : b_key ≢ a_key
b-ne-a e = cc ((bytes_eq_iff b_key a_key).1 e)

get_record-set_record_example :
    get_record sample (on_disk ((a_key, to_bytes (record ours { expire_time_ms = 0 })) ∷ [])) a_key
    ≡ (ret_ok, record ours { expire_time_ms = 0 })
unfolding set_record disk_set
get_record-set_record_example =
    get_record-set_record sample sample-Faithful (on_disk [])
      (on_disk ((a_key, to_bytes (record ours { expire_time_ms = 0 })) ∷ [])) a_key ours true refl
      refl refl

get_record-set_record_ne_example :
    get_record sample
      (on_disk
        ((a_key, to_bytes (record ours { expire_time_ms = 0 })) ∷ (b_key, to_bytes theirs) ∷ []))
      b_key
    ≡ get_record sample (on_disk ((b_key, to_bytes theirs) ∷ [])) b_key
unfolding set_record disk_set
get_record-set_record_ne_example =
    get_record-set_record_ne sample sample-Faithful (on_disk ((b_key, to_bytes theirs) ∷ []))
      (on_disk
        ((a_key, to_bytes (record ours { expire_time_ms = 0 })) ∷ (b_key, to_bytes theirs) ∷ []))
      a_key b_key ours true refl refl b-ne-a refl

-- The search stands at the second of three keys.
forward_loop_key-round_example :
    loop_keys sample 3 (memory three b_key) ≡ c_key ∷ a_key ∷ b_key ∷ []
forward_loop_key-round_example =
    forward_loop_key-round sample (memory three b_key) ((a_key, ours) ∷ []) ((c_key, ours) ∷ [])
      b_key theirs refl (refl, (refl, tt)) refl refl

forward_loop_key-start_example :
    loop_keys sample 3 (memory three (98 ∷ 98 ∷ [])) ≡ a_key ∷ b_key ∷ c_key ∷ []
forward_loop_key-start_example =
    forward_loop_key-start sample (memory three (98 ∷ 98 ∷ [])) (a_key, ours)
      ((b_key, theirs) ∷ (c_key, ours) ∷ []) refl (refl, (refl, tt)) refl refl

abbrev group : Dict Bytes LocalRecordInfo → Files → ℕ → GroupData Files
group m db cp = record {
  map = memory m [];
  leveldb = on_disk db;
  last_instance_id = cp;
  memory_checkpoint = cp;
  disk_checkpoint = cp;
}

abbrev no_cp : ℕ
no_cp = 18_446_744_073_709_551_615

abbrev saved : GroupData Files
saved = (write_disk_checkpoint sample no_cp (group three [] 3) 41).1

read_disk_checkpoint-write_disk_checkpoint_example :
    read_disk_checkpoint sample no_cp saved ≡ (ret_ok, 41, saved)
unfolding write_disk_checkpoint disk_set
read_disk_checkpoint-write_disk_checkpoint_example =
    read_disk_checkpoint-write_disk_checkpoint sample no_cp (group three [] 3) saved 41
      sample-Faithful refl (omega arith) (omega arith) refl

abbrev back : GroupData Files
back = record saved { last_instance_id = 41 }

recover_checkpoints_meet_example :
    let (ret, disk, g') = read_disk_checkpoint sample no_cp saved in
    let restart = (read_restart_checkpoint sample no_cp g').1 in
    let written = is_ok (write_disk_checkpoint sample no_cp g' restart).0 in
    (IsAhead sample no_cp restart disk → written ≡ true → back.disk_checkpoint ≡ restart)
    × ((¬ IsAhead sample no_cp restart disk) ⊎ (written ≡ false) → back.disk_checkpoint ≡ disk)
    × (back.memory_checkpoint ≡ back.disk_checkpoint)
    × (back.last_instance_id ≡ back.disk_checkpoint)
unfolding recover_checkpoints read_disk_checkpoint disk_get_either checkpoint_of
    read_restart_checkpoint needs_restart write_disk_checkpoint disk_set disk_get strtoul to_string
recover_checkpoints_meet_example = recover_checkpoints_meet sample no_cp saved back refl

recover-restores_example :
    (s' m' : LockDb Files) × (recover sample no_cp 2
        (at_first ((a_key, to_bytes ours) ∷ []))
        (memory [] [])
        (λ n. 1000)
      ≡ some (s', m'))
    × (m'.storage_type ≡ map_storage)
    × ((j : Bytes)
        → lookup j m'.map
          ≡ restored sample no_cp j
              ((a_key, to_bytes ours) ∷ [])
              (λ n. 1000)
              (lookup j (memory [] []).map))
recover-restores_example =
    recover-restores sample no_cp ((a_key, to_bytes ours) ∷ [])
      (at_first ((a_key, to_bytes ours) ∷ [])) (memory [] []) (λ n. 1000) refl refl refl
      (inr (ours, refl), tt)

abbrev here_addr : Addr
here_addr = record { ip = 49 ∷ []; port = pos 1; paxos_port = pos 2 }

abbrev option : LockOption
option = record { no_leveldb = false; checkpoint_interval = 10; self_addr = here_addr }

abbrev info : LockInfo
info = record { lock_key = a_key; version = 5; client_id = 9 ∷ []; lease_time_ms = 50 }

abbrev wants : LockInfo → LockPaxosArgs
wants i = record { acquire_lock_req = some i; set_string_req = none; master_addr = here_addr }

abbrev entry : ℕ → LockInfo → Entry
entry n i = record { instance_id = n; value = some (wants i); now = 1000; later = 1001 }

execute_fences_example :
    lookup a_key
      (run sample no_cp option
        (group three [] 6)
        (entry 7 info ∷ entry 8 (record info { version = 6 }) ∷ [])).map.map
    ≡ some (timed (asked 7 (9 ∷ []) 50 1000) 1001)
unfolding execute do_execute apply acquire_lock get_lock set_lock get_record set_record found
execute_fences_example =
    execute_fences sample no_cp option (group three [] 6) (entry 7 info) (wants info) info
      (entry 8 (record info { version = 6 }) ∷ []) refl refl refl refl (omega arith) refl (refl, tt)

three_up_to : (k : Bytes) (r : LocalRecordInfo) → lookup k three ≡ some r → r.version ≤ 6
three_up_to k r h = ground arith

abbrev renewed : LocalRecordInfo
renewed = timed (asked 7 (9 ∷ []) 50 1000) 1001

run_versions_example : (renewed ≡ ours) ⊎ (5 < renewed.version)
unfolding execute do_execute apply acquire_lock get_lock set_lock get_record set_record found leased
run_versions_example =
    run_versions sample no_cp option (group three [] 6) (entry 7 info ∷ []) 6 a_key ours renewed
      refl three_up_to (omega arith, tt) refl refl

abbrev cleaning : Entry
cleaning = record {
  instance_id = 8;
  value = some (clean_args a_key ours);
  now = 1000;
  later = 1001;
}

-- The cleaner picks the first lock at 500, and it is renewed before the request is executed.
next_stale-spares_example :
    lookup a_key (run sample no_cp option (group three [] 6) (entry 7 info ∷ cleaning ∷ [])).map.map
    ≡ some renewed
unfolding execute do_execute apply acquire_lock get_lock set_lock get_record set_record found leased
    next_stale judge forward_loop_key next_loop_key
next_stale-spares_example =
    next_stale-spares sample no_cp option (group three [] 6) (memory three a_key) 500
      (clean_args a_key ours) true 6 (entry 7 info ∷ []) cleaning a_key renewed refl three_up_to
      refl (omega arith, tt) refl refl (inr (omega arith))

abbrev giving_back : LockInfo
giving_back = record { lock_key = a_key; version = 5; client_id = 7 ∷ []; lease_time_ms = 0 }

-- The proposal times out, and another client has got the lock by then.
abbrev too_late : Propose sample
too_late g args = (timeout, group ((a_key, theirs) ∷ []) [] 6)

-- A log in which the value is the next one.
abbrev answer_of : Option RetCode → Proposed
answer_of none = other_error
answer_of (some r) = committed r

abbrev at_once : Propose sample
at_once g args =
    let (read, result, gives_up, g') = execute sample no_cp option g 7 (some args) 1000 1001 in
    (answer_of result, g')

serve_acquire_lock-release_example :
    let (ret, g') = serve_acquire_lock sample too_late ret_ok (group three [] 6) giving_back in
    (ret ≡ ret_ok) × (lookup a_key g'.map.map ≡ none)
unfolding paxos_acquire_lock
serve_acquire_lock-release_example =
    serve_acquire_lock-release sample too_late ret_ok (group three [] 6) giving_back a_key refl refl
      refl refl refl refl
