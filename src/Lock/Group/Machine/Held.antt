-- ===== src/Lock/Group/Machine/Held.antt =====
-- Who holds a lock while values are executed one after the other.
use phxqueue.Common.{
  ℕ, ◌≡◌, refl, sym, ◌∙◌, subst, ◌≢◌, Bool, true, false, ◌&&◌, ◌||◌, not, inl, inr, Option, none,
  some, List, [], ◌∷◌, ◌++◌, arith, ◌==◌, Bool-cases, Option-cases, All,
}
use phxqueue.Common.RetCode.{ret_ok}
use phxqueue.Common.Key.{Bytes, bytes_key, bytes_eq, bytes_eq_iff}
use phxqueue.Common.Dict.{lookup}
use phxqueue.Lock.Disk.{LocalRecordInfo, Disk}
use phxqueue.Lock.Db.{
  LockDb, map_storage, has_no_bytes, uint64_max, acquire_lock, version_set_string,
}
use phxqueue.Lock.Db.Acquire.{
  timed, acquire_lock-held, version_set_string-held, acquire_lock_no_key, version_set_string_no_key,
}
use phxqueue.Lock.Group.{GroupData}
use phxqueue.Lock.Group.Machine.{
  LockInfo, StringInfo, LockPaxosArgs, LockOption, lock_key_info, string_key_info, asked, apply,
  do_execute, execute,
}

-- A value of the log as a node comes to execute it.
pub record Entry : Type 0 where
  pub instance_id : ℕ
  pub value : Option LockPaxosArgs
  pub now : ℕ
  pub later : ℕ

-- The request, if there is one, does not name this version of this key; nor does it set the key
-- whatever its version is.
abbrev pub spares : Bytes → ℕ → Option LockPaxosArgs → Bool
spares k version none = true
spares k version (some args) = elim args.acquire_lock_req [
  | some info ↦ not (bytes_eq k info.lock_key && version == info.version)
  | none ↦ elim args.set_string_req [
    | some info ↦
        not (bytes_eq k info.key && (version == info.version || info.version == uint64_max))
    | none ↦ true
  ]
]

module _ (d : Disk) (no_checkpoint : ℕ) (opt : LockOption) where
  -- The group after one value, and after a stretch of the log.
  abbrev pub after : GroupData d.Db → Entry → GroupData d.Db
  after g e = (execute d no_checkpoint opt g e.instance_id e.value e.now e.later).3

  abbrev pub run : GroupData d.Db → List Entry → GroupData d.Db
  run g [] = g
  run g (e ∷ es) = run (after g e) es

  pub run-snoc :
      (g : GroupData d.Db) (es : List Entry) (e : Entry) → run g (es ++ e ∷ []) ≡ after (run g es) e
  run-snoc g [] e = refl
  run-snoc g (x ∷ es) e = run-snoc (after g x) es e

  acquire_lock_keeps :
      (s : LockDb d.Db) (info : LockInfo) (v : LocalRecordInfo) (sync : Bool) (now : ℕ) (k : Bytes)
      (r : LocalRecordInfo)
      → s.storage_type ≡ map_storage
      → lookup k s.map ≡ some r
      → not (bytes_eq k info.lock_key && r.version == info.version) ≡ true
      → let s' = (acquire_lock d s (lock_key_info info) v sync now).1 in
        (s'.storage_type ≡ map_storage) × (lookup k s'.map ≡ some r)
  acquire_lock_keeps s info v sync now k r t h spared =
      elim (Bool-cases (has_no_bytes info.lock_key)) [
        | inl e ↦ rw (acquire_lock_no_key d s (lock_key_info info) v sync now e) (t, h)
        | inr e ↦
            let (ret, kept, t') = acquire_lock-held d s (lock_key_info info) v sync now k (t, e) in
            (t', kept ∙ ground (arith, bytes_eq_iff k info.lock_key))
      ]

  version_set_string_keeps :
      (s : LockDb d.Db) (info : StringInfo) (v : LocalRecordInfo) (sync : Bool) (now : ℕ)
      (k : Bytes) (r : LocalRecordInfo)
      → s.storage_type ≡ map_storage
      → lookup k s.map ≡ some r
      → not (bytes_eq k info.key && (r.version == info.version || info.version == uint64_max))
        ≡ true
      → let s' = (version_set_string d s (string_key_info info) v sync now).1 in
        (s'.storage_type ≡ map_storage) × (lookup k s'.map ≡ some r)
  version_set_string_keeps s info v sync now k r t h spared =
      elim (Bool-cases (has_no_bytes info.key)) [
        | inl e ↦ rw (version_set_string_no_key d s (string_key_info info) v sync now e) (t, h)
        | inr e ↦
            let (ret, kept, t') =
              version_set_string-held d s (string_key_info info) v sync now k (t, e) in
            (t', kept ∙ ground (arith, bytes_eq_iff k info.key))
      ]

  pub execute_keeps :
      (g : GroupData d.Db) (i : ℕ) (value : Option LockPaxosArgs) (now later : ℕ) (k : Bytes)
      (r : LocalRecordInfo)
      → g.map.storage_type ≡ map_storage
      → lookup k g.map.map ≡ some r
      → spares k r.version value ≡ true
      → let g' = (execute d no_checkpoint opt g i value now later).3 in
        (g'.map.storage_type ≡ map_storage) × (lookup k g'.map.map ≡ some r)
  unfolding execute do_execute apply
  execute_keeps g i none now later k r t h s = (t, h)
  execute_keeps g i (some args) now later k r t h s = elim (Option-cases args.acquire_lock_req) [
    | inr (info, e) ↦ rw e (
        acquire_lock_keeps g.map info (asked i info.client_id info.lease_time_ms now) false later k
          r t h (rw e at s))
    | inl e ↦ elim (Option-cases args.set_string_req) [
      | inr (info, e') ↦
          rw (e, e')
            (version_set_string_keeps g.map info (asked i info.value info.lease_time_ms now) false
              later k r t h (rw (e, e') at s))
      | inl e' ↦ rw (e, e') (t, h)
    ]
  ]

  -- While the log holds no request that names the version of a record in memory, nor one that sets its
  -- key whatever the version, the record stays as it is.
  run-held :
      (g : GroupData d.Db) (es : List Entry) (k : Bytes) (r : LocalRecordInfo) (version : ℕ)
      → g.map.storage_type ≡ map_storage
      → lookup k g.map.map ≡ some r
      → r.version ≡ version
      → All (λ e. spares k version e.value ≡ true) es
      → lookup k (run g es).map.map ≡ some r
  run-held g [] k r version t h ev s = h
  run-held g (e ∷ es) k r version t h ev s =
      let own = subst (λ n. spares k n e.value ≡ true) (sym ev) s.0 in
      let (t', h') = execute_keeps g e.instance_id e.value e.now e.later k r t h own in
      run-held (after g e) es k r version t' h' ev s.1

  pub execute-acquires :
      (g : GroupData d.Db) (i : ℕ) (args : LockPaxosArgs) (now later : ℕ) (info : LockInfo)
      → g.map.storage_type ≡ map_storage
      → args.acquire_lock_req ≡ some info
      → has_no_bytes info.lock_key ≡ false
      → info.lease_time_ms ≢ 0
      → (execute d no_checkpoint opt g i (some args) now later).1 ≡ some ret_ok
      → let g' = (execute d no_checkpoint opt g i (some args) now later).3 in
        (g'.map.storage_type ≡ map_storage)
        × (lookup info.lock_key g'.map.map
            ≡ some (timed (asked i info.client_id info.lease_time_ms now) later))
  unfolding execute do_execute apply
  execute-acquires g i args now later info t e key lease ok =
      let v = asked i info.client_id info.lease_time_ms now in
      let (ret, kept, t') =
        acquire_lock-held d g.map (lock_key_info info) v false later info.lock_key (t, key) in
      rw e (t', kept ∙ ground (arith, e, ok, ret, bytes_eq_iff info.lock_key info.lock_key))

  -- A request of a lock with a lease that is not zero, on a key that is not empty, whose execution in
  -- memory is reported as RET_OK: the key holds the client's record, of the version of that instance,
  -- for as long as no value that is executed later names that version for the key or sets the key
  -- whatever its version.
  pub execute_fences :
      (g : GroupData d.Db) (e : Entry) (args : LockPaxosArgs) (info : LockInfo) (es : List Entry)
      → g.map.storage_type ≡ map_storage
      → e.value ≡ some args
      → args.acquire_lock_req ≡ some info
      → has_no_bytes info.lock_key ≡ false
      → info.lease_time_ms ≢ 0
      → (execute d no_checkpoint opt g e.instance_id (some args) e.now e.later).1 ≡ some ret_ok
      → All (λ x. spares info.lock_key e.instance_id x.value ≡ true) es
      → lookup info.lock_key (run g (e ∷ es)).map.map
        ≡ some (timed (asked e.instance_id info.client_id info.lease_time_ms e.now) e.later)
  execute_fences g e args info es t ev req key lease ok spared =
      let v = asked e.instance_id info.client_id info.lease_time_ms e.now in
      let (t', h) = execute-acquires g e.instance_id args e.now e.later info t req key lease ok in
      let g' = (execute d no_checkpoint opt g e.instance_id (some args) e.now e.later).3 in
      rw ev (run-held g' es info.lock_key (timed v e.later) e.instance_id t' h refl spared)
