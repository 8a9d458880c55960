-- ===== src/Lock/Tests/Mirror.antt =====
-- The map and the mirror of a group, both empty at first, through two values of the log.
use phxqueue.Common.{◌≡◌, refl, false, none, some, [], ◌∷◌, map, arith}
use phxqueue.Common.Key.{Bytes}
use phxqueue.Common.Dict.{Dict}
use phxqueue.Lock.Sample.{sample, sample-Working}
use phxqueue.Lock.Db.{LockDb, map_storage, leveldb_storage, found, get_record, disk_get, parsed}
use phxqueue.Lock.Db.Mirror.{IsUser, Mirrors}
use phxqueue.Lock.Group.{GroupData}
use phxqueue.Lock.Group.Machine.{LockPaxosArgs, LockOption, no_addr}
use phxqueue.Lock.Group.Machine.Held.{run}
use phxqueue.Lock.Group.Machine.Replay.{Turn, replay, replay-Mirrors}

abbrev Files : Type 0
Files = Dict Bytes Bytes

abbrev in_memory : LockDb Files
in_memory = record {
  storage_type = map_storage;
  map = [];
  map_it = [];
  leveldb = [];
  leveldb_it = [];
  prev_loop_key = [];
}

abbrev on_disk : LockDb Files
on_disk = record in_memory { storage_type = leveldb_storage }

abbrev group : GroupData Files
group = record {
  map = in_memory;
  leveldb = on_disk;
  last_instance_id = 0;
  memory_checkpoint = 0;
  disk_checkpoint = 0;
}

-- A file with nothing in it mirrors a map with nothing in it.
nothing_there : (k : Bytes) → IsUser k → get_record sample on_disk k ≡ found sample none
unfolding get_record disk_get parsed found
nothing_there k u = ground arith

group-Mirrors : Mirrors sample group.map group.leveldb
group-Mirrors = record { in_memory = refl; on_disk = refl; agree = nothing_there }

abbrev option : LockOption
option = record { no_leveldb = false; checkpoint_interval = 1; self_addr = no_addr }

abbrev lock : LockPaxosArgs
lock = record {
  acquire_lock_req =
      some (record { lock_key = 97 ∷ []; version = 0; client_id = 9 ∷ []; lease_time_ms = 50 });
  set_string_req = none;
  master_addr = no_addr;
}

abbrev string : LockPaxosArgs
string = record {
  acquire_lock_req = none;
  set_string_req = some (record { key = 98 ∷ []; version = 0; value = 7 ∷ []; lease_time_ms = 60 });
  master_addr = no_addr;
}

abbrev first_turn : Turn
first_turn = record {
  entry = record { instance_id = 1; value = some lock; now = 1000; later = 1001 };
  tested = 2000;
  now = 2001;
  later = 2002;
}

abbrev second_turn : Turn
second_turn = record {
  entry = record { instance_id = 2; value = some string; now = 1010; later = 1011 };
  tested = 2010;
  now = 2011;
  later = 2012;
}

replay-Mirrors_example :
    Mirrors sample
      (run sample 99 option group (map (λ (t : Turn). t.entry) (first_turn ∷ second_turn ∷ []))).map
      (replay sample 99 option 0 group (first_turn ∷ second_turn ∷ [])).leveldb
replay-Mirrors_example =
    replay-Mirrors sample 99 sample-Working option group group (first_turn ∷ second_turn ∷ []) 0
      refl group-Mirrors (refl, (refl, tt))
