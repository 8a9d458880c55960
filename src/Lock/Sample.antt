-- ===== src/Lock/Sample.antt =====
-- A LevelDB of the test's own: a sorted list of entries that never fails, and a message format that
-- writes one byte for each number.
use phxqueue.Common.{◌≡◌, refl, ◌≢◌, Option, none, some, [], ◌∷◌, arith}
use phxqueue.Common.Key.{Bytes, bytes_key, bytes_eq_iff}
use phxqueue.Common.Dict.{Dict, lookup, insert, erase, lookup-insert, lookup-erase}
use phxqueue.Lock.Disk.{LocalRecordInfo, Status, ok, not_found, Disk, Faithful, Working}

abbrev Files : Type 0
Files = Dict Bytes Bytes

abbrev read_of : Option Bytes → Status × Bytes
read_of none = (not_found, [])
read_of (some v) = (ok, v)

abbrev pub parse_bytes : Bytes → Option LocalRecordInfo
parse_bytes (v ∷ l ∷ e ∷ value) =
    some (record { version = v; value = value; lease_time_ms = l; expire_time_ms = e })
parse_bytes bs = none

abbrev pub to_bytes : LocalRecordInfo → Bytes
to_bytes r = r.version ∷ r.lease_time_ms ∷ r.expire_time_ms ∷ r.value

abbrev pub sample : Disk
sample = record {
  Db = Files;
  null_db = [];
  open_db = λ file. (ok, []);
  read = λ db k. read_of (lookup k db);
  put = λ db k v sync. (ok, insert k v db);
  delete = λ db k sync. (ok, erase k db);
  entries = λ db. db;
  parse = parse_bytes;
  serialize = λ r. some (to_bytes r);
}

put_self :
    (db db' : Files) (k v : Bytes)
    → ◌≡◌ {A = Status × Files} (ok, insert k v db) (ok, db')
    → read_of (lookup k db') ≡ (ok, v)
put_self db db' k v h = ground (arith, h, lookup-insert k k v db, bytes_eq_iff k k)

put_ne :
    (db db' : Files) (k j v : Bytes)
    → ◌≡◌ {A = Status × Files} (ok, insert k v db) (ok, db')
    → j ≢ k
    → read_of (lookup j db') ≡ read_of (lookup j db)
put_ne db db' k j v h ne = ground (arith, h, lookup-insert j k v db, bytes_eq_iff j k)

round : (r : LocalRecordInfo) (b : Bytes) → some (to_bytes r) ≡ some b → parse_bytes b ≡ some r
round r b h = ground (arith, h)

pub sample-Faithful : Faithful sample
sample-Faithful = record {
  read-put_self = λ db db' k v sync h. put_self db db' k v h;
  read-put_ne = λ db db' k j v sync h ne. put_ne db db' k j v h ne;
  parse-serialize = round;
}

delete_self :
    (db db' : Files) (k : Bytes)
    → ◌≡◌ {A = Status × Files} (ok, erase k db) (ok, db')
    → (read_of (lookup k db')).0 ≡ not_found
delete_self db db' k h = ground (arith, h, lookup-erase k k db, bytes_eq_iff k k)

delete_ne :
    (db db' : Files) (k j : Bytes)
    → ◌≡◌ {A = Status × Files} (ok, erase k db) (ok, db')
    → j ≢ k
    → read_of (lookup j db') ≡ read_of (lookup j db)
delete_ne db db' k j h ne = ground (arith, h, lookup-erase j k db, bytes_eq_iff j k)

pub sample-Working : Working sample
sample-Working = record {
  faithful = sample-Faithful;
  put_ok = λ db k v sync. (insert k v db, refl);
  delete_ok = λ db k sync. (erase k db, refl);
  serialize_ok = λ r. (to_bytes r, refl);
  read-delete_self = λ db db' k sync h. delete_self db db' k h;
  read-delete_ne = λ db db' k j sync h ne. delete_ne db db' k j h ne;
}
