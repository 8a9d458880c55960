-- ===== src/Lock/Disk.antt =====
-- What the lock node takes from LevelDB and from the generated protobuf code: the calls it makes,
-- and the documented behaviour that some theorems rest on.
use phxqueue.Common.{ℕ, ◌≡◌, ◌≢◌, Bool, Option, some, List}
use phxqueue.Common.Key.{Bytes}

-- `proto::LocalRecordInfo`; a field that is not set reads as zero or empty.
pub record LocalRecordInfo : Type 0 where
  pub version : ℕ
  pub value : Bytes
  pub lease_time_ms : ℕ
  pub expire_time_ms : ℕ

-- `leveldb::Status`, as far as the code asks: `ok()`, `IsNotFound()`, or any other.
pub data Status : Type 0 where
  ok not_found failed : Status

pub record Disk : Type 1 where
  -- A `leveldb::DB *` with the files behind it.
  pub Db : Type 0
  pub null_db : Db
  pub open_db : Bytes → Status × Db
  pub read : Db → Bytes → Status × Bytes
  pub put : Db → Bytes → Bytes → Bool → Status × Db
  pub delete : Db → Bytes → Bool → Status × Db
  -- What an iterator sees from `SeekToFirst` on.
  pub entries : Db → List (Bytes × Bytes)
  pub parse : Bytes → Option LocalRecordInfo
  pub serialize : LocalRecordInfo → Option Bytes

-- A key that was written is read back until it is written again or deleted, and a key that was
-- deleted is not found; what was serialised parses to the same message.
pub record Faithful (d : Disk) : Type 0 where
  pub read-put_self :
      (db db' : d.Db) (k v : Bytes) (sync : Bool)
      → d.put db k v sync ≡ (ok, db')
      → d.read db' k ≡ (ok, v)
  pub read-put_ne :
      (db db' : d.Db) (k j v : Bytes) (sync : Bool)
      → d.put db k v sync ≡ (ok, db')
      → j ≢ k
      → d.read db' j ≡ d.read db j
  pub parse-serialize :
      (r : LocalRecordInfo) (b : Bytes) → d.serialize r ≡ some b → d.parse b ≡ some r

-- A disk on which no write fails, and messages that can always be serialised.
pub record Working (d : Disk) : Type 0 where
  pub faithful : Faithful d
  pub put_ok :
      (db : d.Db) (k v : Bytes) (sync : Bool) → (db' : d.Db) × (d.put db k v sync ≡ (ok, db'))
  pub delete_ok :
      (db : d.Db) (k : Bytes) (sync : Bool) → (db' : d.Db) × (d.delete db k sync ≡ (ok, db'))
  pub serialize_ok : (r : LocalRecordInfo) → (b : Bytes) × (d.serialize r ≡ some b)
  pub read-delete_self :
      (db db' : d.Db) (k : Bytes) (sync : Bool)
      → d.delete db k sync ≡ (ok, db')
      → (d.read db' k).0 ≡ not_found
  pub read-delete_ne :
      (db db' : d.Db) (k j : Bytes) (sync : Bool)
      → d.delete db k sync ≡ (ok, db')
      → j ≢ k
      → d.read db' j ≡ d.read db j
