-- ===== src/Lock/Db/Acquire.antt =====
-- Who gets a lock, on the database in memory.
use phxqueue.Common.{
  ◌+◌, ◌%◌, ◌^◌, ℕ, ◌≡◌, refl, sym, ap, ◌∙◌, ◌≢◌, Bool, true, false, ◌||◌, ◌&&◌, Option, none, some,
  arith, ◌==◌, if◌then◌else◌,
}
use phxqueue.Common.RetCode.{RetCode, ret_ok, ret_err_key, ret_err_version_not_equal}
use phxqueue.Common.Key.{Bytes, bytes_key, bytes_eq, bytes_eq_iff}
use phxqueue.Common.Dict.{lookup, insert, erase, lookup-insert, lookup-erase}
use phxqueue.Lock.Disk.{LocalRecordInfo, Disk}
use phxqueue.Lock.Db.{
  LockDb, RecordKeyInfo, map_storage, uint64_max, empty_record, has_no_bytes, leased, found,
  get_record, set_record, delete_record, get_lock, set_lock, delete_lock, get_string, set_string,
  delete_string, acquire_lock, version_set_string,
}

-- A request is granted on a key that is free, or whose record has the version that it names.
abbrev pub grants : Option LocalRecordInfo → ℕ → Bool
grants none version = true
grants (some r) version = r.version == version

-- For strings UINT64_MAX names any version.
abbrev pub grants_string : Option LocalRecordInfo → ℕ → Bool
grants_string o version = version == uint64_max || grants o version

-- The record with its expiry counted from now in 64 bits; zero where the lease has no end.
abbrev pub timed : LocalRecordInfo → ℕ → LocalRecordInfo
timed v now = record v {
  expire_time_ms = if v.lease_time_ms == uint64_max then 0 else (now + v.lease_time_ms) % 2 ^ 64;
}

module _ (d : Disk) where
  -- What the key holds after a request that was granted.
  abbrev pub granted : LocalRecordInfo → ℕ → Option LocalRecordInfo
  granted v now = if v.lease_time_ms == 0 then none else some (timed v now)

  -- A database in memory, and a key that is not empty.
  abbrev pub InMemory : LockDb d.Db → Bytes → Type 0
  InMemory s k = (s.storage_type ≡ map_storage) × (has_no_bytes k ≡ false)

  pub leased-version : (v : LocalRecordInfo) (now : ℕ) → (leased d v now).version ≡ v.version
  unfolding leased
  leased-version v now = refl

  pub get_record-memory :
      (s : LockDb d.Db) (k : Bytes) → InMemory s k → get_record d s k ≡ found d (lookup k s.map)
  unfolding get_record
  get_record-memory s k (m, e) = ground arith

  pub get_record_no_key :
      (s : LockDb d.Db) (k : Bytes)
      → has_no_bytes k ≡ true
      → get_record d s k ≡ (ret_err_key, empty_record)
  unfolding get_record
  get_record_no_key s k e = rw e

  pub set_record-memory :
      (s : LockDb d.Db) (k : Bytes) (v : LocalRecordInfo) (sync : Bool)
      → InMemory s k
      → set_record d s k v sync ≡ (ret_ok, record s { map = insert k v s.map })
  unfolding set_record
  set_record-memory s k v sync (m, e) = ground arith

  pub set_record_no_key :
      (s : LockDb d.Db) (k : Bytes) (v : LocalRecordInfo) (sync : Bool)
      → has_no_bytes k ≡ true
      → set_record d s k v sync ≡ (ret_err_key, s)
  unfolding set_record
  set_record_no_key s k v sync e = rw e

  pub delete_record-memory :
      (s : LockDb d.Db) (k : Bytes) (sync : Bool)
      → InMemory s k
      → delete_record d s k sync ≡ (ret_ok, record s { map = erase k s.map })
  unfolding delete_record
  delete_record-memory s k sync (m, e) = ground arith

  pub get_lock-memory :
      (s : LockDb d.Db) (k : Bytes) → InMemory s k → get_lock d s k ≡ found d (lookup k s.map)
  unfolding get_lock
  get_lock-memory s k m = ground (arith, get_record-memory s k m)

  pub delete_lock-memory :
      (s : LockDb d.Db) (k : Bytes) (sync : Bool)
      → InMemory s k
      → delete_lock d s k sync ≡ (ret_ok, record s { map = erase k s.map })
  unfolding delete_lock
  delete_lock-memory s k sync m = ground (arith, delete_record-memory s k sync m)

  -- The write that a granted request makes.
  abbrev pub written : LockDb d.Db → Bytes → LocalRecordInfo → ℕ → LockDb d.Db
  written s k v now =
      if v.lease_time_ms == 0
      then record s { map = erase k s.map }
      else record s { map = insert k (leased d v now) s.map }

  pub acquire_lock_no_key :
      (s : LockDb d.Db) (info : RecordKeyInfo) (v : LocalRecordInfo) (sync : Bool) (now : ℕ)
      → has_no_bytes info.key ≡ true
      → acquire_lock d s info v sync now ≡ (ret_err_key, s)
  unfolding acquire_lock get_lock
  acquire_lock_no_key s info v sync now e = ground arith

  pub version_set_string_no_key :
      (s : LockDb d.Db) (info : RecordKeyInfo) (v : LocalRecordInfo) (sync : Bool) (now : ℕ)
      → has_no_bytes info.key ≡ true
      → version_set_string d s info v sync now ≡ (ret_err_key, s)
  unfolding version_set_string get_string
  version_set_string_no_key s info v sync now e = ground arith

  pub acquire_lock-memory :
      (s : LockDb d.Db) (info : RecordKeyInfo) (v : LocalRecordInfo) (sync : Bool) (now : ℕ)
      → InMemory s info.key
      → acquire_lock d s info v sync now ≡ (
          if grants (lookup info.key s.map) info.version
          then (ret_ok, written s info.key v now)
          else (ret_err_version_not_equal, s))
  unfolding acquire_lock get_lock set_lock delete_lock found
  acquire_lock-memory s info v sync now m = ground (
    arith,
    get_record-memory s info.key m,
    set_record-memory s info.key (leased d v now) sync m,
    delete_record-memory s info.key sync m,
  )

  pub version_set_string-memory :
      (s : LockDb d.Db) (info : RecordKeyInfo) (v : LocalRecordInfo) (sync : Bool) (now : ℕ)
      → InMemory s info.key
      → version_set_string d s info v sync now ≡ (
          if grants_string (lookup info.key s.map) info.version
          then (ret_ok, written s info.key v now)
          else (ret_err_version_not_equal, s))
  unfolding version_set_string get_string set_string delete_string found
  version_set_string-memory s info v sync now m = ground (
    arith,
    get_record-memory s info.key m,
    set_record-memory s info.key (leased d v now) sync m,
    delete_record-memory s info.key sync m,
  )

  lookup-written :
      (s : LockDb d.Db) (k j : Bytes) (v : LocalRecordInfo) (now : ℕ)
      → lookup j (written s k v now).map ≡ (if bytes_eq j k then granted v now else lookup j s.map)
  unfolding leased
  lookup-written s k j v now =
      ground (arith, lookup-insert j k (leased d v now) s.map, lookup-erase j k s.map)

  -- AcquireLock on a database in memory, for a key that is not empty. It is granted when the key is
  -- free or its record has the version named in the request, and then the key holds the record with
  -- its expiry counted from now, or nothing if the lease is zero; otherwise the code says that the
  -- versions differ and nothing changes. Every other key holds what it held.
  pub acquire_lock-held :
      (s : LockDb d.Db) (info : RecordKeyInfo) (v : LocalRecordInfo) (sync : Bool) (now : ℕ)
      (j : Bytes)
      → InMemory s info.key
      → let (ret, s') = acquire_lock d s info v sync now in
        let ok = grants (lookup info.key s.map) info.version in
        (ret ≡ (if ok then ret_ok else ret_err_version_not_equal))
        × (lookup j s'.map ≡ (if ok && bytes_eq j info.key then granted v now else lookup j s.map))
        × (s'.storage_type ≡ map_storage)
  acquire_lock-held s info v sync now j m =
      rw (acquire_lock-memory s info v sync now m)
        (ground (arith, lookup-written s info.key j v now))

  -- VersionSetString on a database in memory, for a key that is not empty. It is granted when the
  -- key is free, its record has the version named in the request, or the request names UINT64_MAX,
  -- and then the key holds the record with its expiry counted from now, or nothing if the lease is
  -- zero; otherwise the code says that the versions differ and nothing changes. Every other key
  -- holds what it held.
  pub version_set_string-held :
      (s : LockDb d.Db) (info : RecordKeyInfo) (v : LocalRecordInfo) (sync : Bool) (now : ℕ)
      (j : Bytes)
      → InMemory s info.key
      → let (ret, s') = version_set_string d s info v sync now in
        let ok = grants_string (lookup info.key s.map) info.version in
        (ret ≡ (if ok then ret_ok else ret_err_version_not_equal))
        × (lookup j s'.map ≡ (if ok && bytes_eq j info.key then granted v now else lookup j s.map))
        × (s'.storage_type ≡ map_storage)
  version_set_string-held s info v sync now j m =
      rw (version_set_string-memory s info v sync now m)
        (ground (arith, lookup-written s info.key j v now))

  granted_leaves :
      (s s' : LockDb d.Db) (info : RecordKeyInfo) (v : LocalRecordInfo) (sync : Bool) (now : ℕ)
      → InMemory s info.key
      → acquire_lock d s info v sync now ≡ (ret_ok, s')
      → InMemory s' info.key × (lookup info.key s'.map ≡ granted v now)
  granted_leaves s s' info v sync now m e =
      let h = acquire_lock-held s info v sync now info.key m in
      let same : (acquire_lock d s info v sync now).1 ≡ s' =
        ap (λ (p : RetCode × LockDb d.Db). p.1) e in
      let code : (acquire_lock d s info v sync now).0 ≡ ret_ok =
        ap (λ (p : RetCode × LockDb d.Db). p.0) e in
      (
        (sym (ap (λ (t : LockDb d.Db). t.storage_type) same) ∙ h.2, m.1),
        sym (ap (λ (t : LockDb d.Db). lookup info.key t.map) same)
            ∙ h.1
            ∙ ground (arith, bytes_eq_iff info.key info.key, h.0),
      )

  -- Of two requests that name the same version for one key, the second is refused: the first one left
  -- a record of another version, if it was granted for a lease that is not zero.
  pub acquire_lock-once :
      (s s' : LockDb d.Db) (info : RecordKeyInfo) (v w : LocalRecordInfo) (sync : Bool)
      (now later : ℕ)
      → InMemory s info.key
      → acquire_lock d s info v sync now ≡ (ret_ok, s')
      → v.lease_time_ms ≢ 0
      → v.version ≢ info.version
      → acquire_lock d s' info w sync later ≡ (ret_err_version_not_equal, s')
  unfolding leased
  acquire_lock-once s s' info v w sync now later m e lease fresh =
      let (m', kept) = granted_leaves s s' info v sync now m e in
      rw (acquire_lock-memory s' info w sync later m') (ground arith)
