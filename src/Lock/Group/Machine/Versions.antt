-- ===== src/Lock/Group/Machine/Versions.antt =====
-- The versions of the records while values are executed in the order of their instances.
use phxqueue.Common.{
  ℕ, ◌<◌, ◌≤◌, ◌≡◌, Bool, false, ◌&&◌, ◌⊎◌, inl, inr, Option, none, some, List, [], ◌∷◌, arith,
  Bool-cases, Option-cases,
}
use phxqueue.Common.Key.{Bytes, bytes_key, bytes_eq}
use phxqueue.Common.Dict.{lookup}
use phxqueue.Lock.Disk.{LocalRecordInfo, Disk}
use phxqueue.Lock.Db.{
  LockDb, RecordKeyInfo, empty_record, map_storage, has_no_bytes, acquire_lock, version_set_string,
}
use phxqueue.Lock.Db.Acquire.{
  grants, grants_string, granted, acquire_lock-held, version_set_string-held, acquire_lock_no_key,
  version_set_string_no_key, leased-version,
}
use phxqueue.Lock.Group.{GroupData}
use phxqueue.Lock.Group.Machine.{
  LockPaxosArgs, LockOption, lock_key_info, string_key_info, asked, apply, do_execute, execute,
}
use phxqueue.Lock.Group.Machine.Held.{Entry, after, run}

-- The values of the log are executed in the order of their instances, beyond instance n.
abbrev pub Ascends : ℕ → List Entry → Type 0
Ascends n [] = Unit {0}
Ascends n (e ∷ es) = (n < e.instance_id) × Ascends e.instance_id es

module _ (d : Disk) (no_checkpoint : ℕ) (opt : LockOption) where
  -- No record in memory is of an instance beyond n.
  abbrev pub IsUpTo : ℕ → GroupData d.Db → Type 0
  IsUpTo n g = (k : Bytes) (r : LocalRecordInfo) → lookup k g.map.map ≡ some r → r.version ≤ n

  granted_version :
      (v r : LocalRecordInfo) (now : ℕ) → granted d v now ≡ some r → r.version ≡ v.version
  granted_version v r now h = ground (arith, leased-version d v now)

  acquire_lock_origin :
      (s : LockDb d.Db) (info : RecordKeyInfo) (v : LocalRecordInfo) (sync : Bool) (now : ℕ)
      (k : Bytes) (r : LocalRecordInfo)
      → s.storage_type ≡ map_storage
      → let s' = (acquire_lock d s info v sync now).1 in
        (s'.storage_type ≡ map_storage)
        × (lookup k s'.map ≡ some r → (lookup k s.map ≡ some r) ⊎ (r.version ≡ v.version))
  acquire_lock_origin s info v sync now k r t = elim (Bool-cases (has_no_bytes info.key)) [
    | inl e ↦ rw (acquire_lock_no_key d s info v sync now e) (t, λ h. inl h)
    | inr e ↦
        let (ret, kept, t') = acquire_lock-held d s info v sync now k (t, e) in
        let ok = grants (lookup info.key s.map) info.version && bytes_eq k info.key in
        (
          t',
          λ h. elim (Bool-cases ok) [
            | inl hit ↦ inr (granted_version v r now (ground (arith, kept, h, hit)))
            | inr miss ↦ inl (ground (arith, kept, h, miss))
          ],
        )
  ]

  version_set_string_origin :
      (s : LockDb d.Db) (info : RecordKeyInfo) (v : LocalRecordInfo) (sync : Bool) (now : ℕ)
      (k : Bytes) (r : LocalRecordInfo)
      → s.storage_type ≡ map_storage
      → let s' = (version_set_string d s info v sync now).1 in
        (s'.storage_type ≡ map_storage)
        × (lookup k s'.map ≡ some r → (lookup k s.map ≡ some r) ⊎ (r.version ≡ v.version))
  version_set_string_origin s info v sync now k r t = elim (Bool-cases (has_no_bytes info.key)) [
    | inl e ↦ rw (version_set_string_no_key d s info v sync now e) (t, λ h. inl h)
    | inr e ↦
        let (ret, kept, t') = version_set_string-held d s info v sync now k (t, e) in
        let ok = grants_string (lookup info.key s.map) info.version && bytes_eq k info.key in
        (
          t',
          λ h. elim (Bool-cases ok) [
            | inl hit ↦ inr (granted_version v r now (ground (arith, kept, h, hit)))
            | inr miss ↦ inl (ground (arith, kept, h, miss))
          ],
        )
  ]

  -- What a key holds after a value is what it held before, or of the value's instance.
  execute_origin :
      (g : GroupData d.Db) (i : ℕ) (value : Option LockPaxosArgs) (now later : ℕ) (k : Bytes)
      (r : LocalRecordInfo)
      → g.map.storage_type ≡ map_storage
      → let g' = (execute d no_checkpoint opt g i value now later).3 in
        (g'.map.storage_type ≡ map_storage)
        × (lookup k g'.map.map ≡ some r → (lookup k g.map.map ≡ some r) ⊎ (r.version ≡ i))
  unfolding execute do_execute apply
  execute_origin g i none now later k r t = (t, λ h. inl h)
  execute_origin g i (some args) now later k r t = elim (Option-cases args.acquire_lock_req) [
    | inr (info, e) ↦
        let v = asked i info.client_id info.lease_time_ms now in
        rw e (acquire_lock_origin g.map (lock_key_info info) v false later k r t)
    | inl e ↦ elim (Option-cases args.set_string_req) [
      | inr (info, e') ↦
          let v = asked i info.value info.lease_time_ms now in
          rw (e, e') (version_set_string_origin g.map (string_key_info info) v false later k r t)
      | inl e' ↦ rw (e, e') (t, λ h. inl h)
    ]
  ]

  pub run_memory :
      (g : GroupData d.Db) (es : List Entry)
      → g.map.storage_type ≡ map_storage
      → (run d no_checkpoint opt g es).map.storage_type ≡ map_storage
  run_memory g [] t = t
  run_memory g (e ∷ es) t =
      run_memory (after d no_checkpoint opt g e) es
        (execute_origin g e.instance_id e.value e.now e.later [] empty_record t).0

  run_origin :
      (g : GroupData d.Db) (es : List Entry) (n : ℕ) (k : Bytes) (r : LocalRecordInfo)
      → g.map.storage_type ≡ map_storage
      → Ascends n es
      → lookup k (run d no_checkpoint opt g es).map.map ≡ some r
      → (lookup k g.map.map ≡ some r) ⊎ (n < r.version)
  run_origin g [] n k r t asc h = inl h
  run_origin g (e ∷ es) n k r t asc h =
      let (t', step) = execute_origin g e.instance_id e.value e.now e.later k r t in
      elim (run_origin (after d no_checkpoint opt g e) es e.instance_id k r t' asc.1 h) [
        | inl before ↦ elim (step before) [
          | inl old ↦ inl old
          | inr new ↦ inr (omega (arith, asc.0))
        ]
        | inr new ↦ inr (omega (arith, asc.0))
      ]

  -- No record in memory is of a later instance than n, and values of later instances are executed in
  -- order. If a key then has a record before and after, the two are the same record, or the version of
  -- the later one is greater: a version that a client has seen never comes back with another record.
  pub run_versions :
      (g : GroupData d.Db) (es : List Entry) (n : ℕ) (k : Bytes) (r r' : LocalRecordInfo)
      → g.map.storage_type ≡ map_storage
      → IsUpTo n g
      → Ascends n es
      → lookup k g.map.map ≡ some r
      → lookup k (run d no_checkpoint opt g es).map.map ≡ some r'
      → (r' ≡ r) ⊎ (r.version < r'.version)
  run_versions g es n k r r' t up asc h h' = elim (run_origin g es n k r' t asc h') [
    | inl old ↦ inl (ground (arith, old, h))
    | inr new ↦ inr (omega (arith, up k r h))
  ]

  -- The bound on the versions moves on with the instance that is executed.
  pub execute-IsUpTo :
      (g : GroupData d.Db) (n i : ℕ) (value : Option LockPaxosArgs) (now later : ℕ)
      → g.map.storage_type ≡ map_storage
      → n ≤ i
      → IsUpTo n g
      → IsUpTo i (execute d no_checkpoint opt g i value now later).3
  execute-IsUpTo g n i value now later t le up k r h =
      elim ((execute_origin g i value now later k r t).1 h) [
        | inl old ↦ omega (arith, up k r old)
        | inr new ↦ omega arith
      ]
