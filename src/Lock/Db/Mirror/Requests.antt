-- ===== src/Lock/Db/Mirror/Requests.antt =====
-- AcquireLock and VersionSetString at the map and at the mirror.
use phxqueue.Common.{
  ℕ, ◌≡◌, refl, Bool, true, false, inl, inr, Option, none, some, arith, ◌==◌, if◌then◌else◌,
  Bool-cases,
}
use phxqueue.Common.RetCode.{RetCode, ret_err_version_not_equal}
use phxqueue.Common.Key.{Bytes, bytes_key}
use phxqueue.Common.Dict.{lookup}
use phxqueue.Lock.Disk.{LocalRecordInfo, Disk, Working}
use phxqueue.Lock.Db.{
  LockDb, RecordKeyInfo, has_no_bytes, leased, found, get_record, set_record, delete_record,
  get_lock, set_lock, delete_lock, get_string, set_string, delete_string, acquire_lock,
  version_set_string,
}
use phxqueue.Lock.Db.Acquire.{
  grants, grants_string, set_record-memory, delete_record-memory, get_record-memory,
}
use phxqueue.Lock.Db.Mirror.{kept, IsUser, Mirrors}
use phxqueue.Lock.Db.Mirror.Writes.{set_record-Mirrors, delete_record-Mirrors}

module _ (d : Disk) where
  -- What a request comes to once it is decided.
  abbrev pub outcome :
      LockDb d.Db → Bytes → Bool → LocalRecordInfo → Bool → ℕ → RetCode × LockDb d.Db
  outcome s k granted v sync now =
      if granted
      then if v.lease_time_ms == 0
        then delete_record d s k sync
        else set_record d s k (leased d v now) sync
      else (ret_err_version_not_equal, s)

  acquire_lock-outcome :
      (s : LockDb d.Db) (info : RecordKeyInfo) (v : LocalRecordInfo) (sync : Bool) (now : ℕ)
      (o : Option LocalRecordInfo)
      → has_no_bytes info.key ≡ false
      → get_record d s info.key ≡ found d o
      → acquire_lock d s info v sync now ≡ outcome s info.key (grants o info.version) v sync now
  unfolding acquire_lock get_lock set_lock delete_lock found
  acquire_lock-outcome s info v sync now none key got = ground arith
  acquire_lock-outcome s info v sync now (some r) key got = ground arith

  version_set_string-outcome :
      (s : LockDb d.Db) (info : RecordKeyInfo) (v : LocalRecordInfo) (sync : Bool) (now : ℕ)
      (o : Option LocalRecordInfo)
      → has_no_bytes info.key ≡ false
      → get_record d s info.key ≡ found d o
      → version_set_string d s info v sync now
        ≡ outcome s info.key (grants_string o info.version) v sync now
  unfolding version_set_string get_string set_string delete_string found
  version_set_string-outcome s info v sync now none key got = ground arith
  version_set_string-outcome s info v sync now (some r) key got = ground arith

  grants-kept :
      (o : Option LocalRecordInfo) (version : ℕ) → grants (kept o) version ≡ grants o version
  grants-kept none version = refl
  grants-kept (some r) version = refl

  kept-leased :
      (v : LocalRecordInfo) (other now now' : ℕ)
      → kept (some (leased d v now))
        ≡ kept (some (leased d (record v { expire_time_ms = other }) now'))
  unfolding leased
  kept-leased v other now now' = refl

  module _ (w : Working d) where
    outcome-Mirrors :
        (m s : LockDb d.Db) (k : Bytes) (ok' : Bool) (v : LocalRecordInfo) (sync sync' : Bool)
        (now now' other : ℕ)
        → Mirrors d m s
        → has_no_bytes k ≡ false
        → let a = outcome m k ok' v sync now in
          let b = outcome s k ok' (record v { expire_time_ms = other }) sync' now' in
          (a.0 ≡ b.0) × Mirrors d a.1 b.1
    outcome-Mirrors m s k false v sync sync' now now' other h key = (refl, h)
    outcome-Mirrors m s k true v sync sync' now now' other h key =
        elim (Bool-cases (v.lease_time_ms == 0)) [
          | inl free ↦
              let (s', e, after) = delete_record-Mirrors d w m s k sync' h key in
              rw (free, e, delete_record-memory d m k sync (h.in_memory, key)) (refl, after)
          | inr lasting ↦
              let v' = record v { expire_time_ms = other } in
              let (s', e, after) =
                set_record-Mirrors d w m s k (leased d v now) (leased d v' now') sync sync' h key
                  (kept-leased v other now now') in
              rw (lasting, e, set_record-memory d m k (leased d v now) sync (h.in_memory, key))
                (refl, after)
        ]

    -- AcquireLock at the map and at the mirror, at any two times: the same code, and the mirror
    -- still has what the map has.
    pub acquire_lock-Mirrors :
        (m s : LockDb d.Db) (info : RecordKeyInfo) (v : LocalRecordInfo) (sync sync' : Bool)
        (now now' other : ℕ)
        → Mirrors d m s
        → IsUser info.key
        → let a = acquire_lock d m info v sync now in
          let b = acquire_lock d s info (record v { expire_time_ms = other }) sync' now' in
          (a.0 ≡ b.0) × Mirrors d a.1 b.1
    acquire_lock-Mirrors m s info v sync sync' now now' other h u =
        let o = lookup info.key m.map in
        rw
          (
            acquire_lock-outcome m info v sync now o u.0
                (get_record-memory d m info.key (h.in_memory, u.0)),
            acquire_lock-outcome s info (record v { expire_time_ms = other }) sync' now' (kept o)
                u.0 (h.agree info.key u),
            grants-kept o info.version,
          )
          (outcome-Mirrors m s info.key (grants o info.version) v sync sync' now now' other h u.0)

    -- The same of VersionSetString.
    pub version_set_string-Mirrors :
        (m s : LockDb d.Db) (info : RecordKeyInfo) (v : LocalRecordInfo) (sync sync' : Bool)
        (now now' other : ℕ)
        → Mirrors d m s
        → IsUser info.key
        → let a = version_set_string d m info v sync now in
          let b = version_set_string d s info (record v { expire_time_ms = other }) sync' now' in
          (a.0 ≡ b.0) × Mirrors d a.1 b.1
    version_set_string-Mirrors m s info v sync sync' now now' other h u =
        let o = lookup info.key m.map in
        rw
          (
            version_set_string-outcome m info v sync now o u.0
                (get_record-memory d m info.key (h.in_memory, u.0)),
            version_set_string-outcome s info (record v { expire_time_ms = other }) sync' now'
                (kept o) u.0 (h.agree info.key u),
            grants-kept o info.version,
          )
          (outcome-Mirrors m s info.key (grants_string o info.version) v sync sync' now now' other h
            u.0)
