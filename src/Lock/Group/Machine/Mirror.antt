-- ===== src/Lock/Group/Machine/Mirror.antt =====
-- The map and the mirror of a group: the same log, executed at once by Execute and at other times by
-- ExecuteForCheckpoint.
use phxqueue.Common.{
  ℕ, ◌≡◌, refl, sym, ap, ◌∙◌, ◌≢◌, Bool, true, false, not, inl, inr, Option, none, some, arith,
  ◌==◌, Bool-cases, Option-cases,
}
use phxqueue.Common.RetCode.{RetCode, ret_ok, is_ok}
use phxqueue.Common.Int.{pos, negsuc}
use phxqueue.Common.Key.{Bytes}
use phxqueue.Lock.Disk.{LocalRecordInfo, Disk, Working}
use phxqueue.Lock.Db.{
  LockDb, map_storage, leveldb_storage, has_no_bytes, has_prefix, ignore_prefix, get_record,
  disk_set, acquire_lock, version_set_string,
}
use phxqueue.Lock.Db.Acquire.{acquire_lock_no_key, version_set_string_no_key}
use phxqueue.Lock.Db.Records.{disk_get-disk_set_ne}
use phxqueue.Lock.Db.Mirror.{Mirrors}
use phxqueue.Lock.Db.Mirror.Requests.{acquire_lock-Mirrors, version_set_string-Mirrors}
use phxqueue.Lock.Group.{GroupData, write_disk_checkpoint, key_ignore_checkpoint}
use phxqueue.Lock.Group.Decimal.{to_string}
use phxqueue.Lock.Group.Machine.{
  LockInfo, StringInfo, LockPaxosArgs, lock_key_info, string_key_info, asked, apply, do_execute,
}

-- A value whose request, if it has one, is not for a key of the node's own.
abbrev pub is_client : Option LockPaxosArgs → Bool
is_client none = true
is_client (some args) = elim args.acquire_lock_req [
  | some info ↦ not (has_prefix ignore_prefix info.lock_key)
  | none ↦ elim args.set_string_req [
    | some info ↦ not (has_prefix ignore_prefix info.key)
    | none ↦ true
  ]
]

is_ok-eq : (r : RetCode) → is_ok r ≡ true → r ≡ ret_ok
is_ok-eq (pos n) h = ground arith
is_ok-eq (negsuc n) h = ground arith

module _ (d : Disk) (no_checkpoint : ℕ) (w : Working d) where
  not_checkpoint_key : (j : Bytes) → has_prefix ignore_prefix j ≡ false → j ≢ key_ignore_checkpoint
  not_checkpoint_key j u e = let p = ap (has_prefix ignore_prefix) e in ground arith

  get_record-checkpoint :
      (s s' : LockDb d.Db) (j b : Bytes)
      → s.storage_type ≡ leveldb_storage
      → has_prefix ignore_prefix j ≡ false
      → disk_set d s key_ignore_checkpoint b true ≡ (ret_ok, s')
      → s'.storage_type ≡ leveldb_storage
      → get_record d s' j ≡ get_record d s j
  unfolding get_record
  get_record-checkpoint s s' j b t u e t' =
      rw
        (
          t,
          t',
          disk_get-disk_set_ne d w.faithful s s' key_ignore_checkpoint j b true t refl
              (not_checkpoint_key j u) e,
        )
        (refl)

  disk_set-ok :
      (s : LockDb d.Db) (b : Bytes)
      → s.storage_type ≡ leveldb_storage
      → (s' : LockDb d.Db) × (disk_set d s key_ignore_checkpoint b true ≡ (ret_ok, s'))
        × (s'.storage_type ≡ leveldb_storage)
  unfolding disk_set
  disk_set-ok s b t =
      let (db, p) = w.put_ok s.leveldb key_ignore_checkpoint b true in
      (record s { leveldb = db }, ground (arith, p), t)

  write_disk_checkpoint-Mirrors :
      (m : LockDb d.Db) (h : GroupData d.Db) (cp : ℕ)
      → Mirrors d m h.leveldb
      → let b = write_disk_checkpoint d no_checkpoint h cp in
        (b.0 ≡ ret_ok) × Mirrors d m b.1.leveldb
  unfolding write_disk_checkpoint
  write_disk_checkpoint-Mirrors m h cp mir = elim (Bool-cases (no_checkpoint == cp)) [
    | inl unset ↦ rw unset (refl, mir)
    | inr real ↦
        let (s', e, t) = disk_set-ok h.leveldb (to_string cp) mir.on_disk in
        rw (real, e)
          (
            refl,
            record {
              in_memory = mir.in_memory;
              on_disk = t;
              agree = λ j u.
                  get_record-checkpoint h.leveldb s' j (to_string cp) mir.on_disk u.1 e t
                  ∙ mir.agree j u;
            },
          )
  ]

  -- A write that keeps the two alike does so as a value's write to the group.
  apply-Mirrors :
      (g h : GroupData d.Db) (n : ℕ) (sync : Bool) (wm ws : LockDb d.Db → RetCode × LockDb d.Db)
      → Mirrors d g.map h.leveldb
      → (wm g.map).0 ≡ (ws h.leveldb).0
      → Mirrors d (wm g.map).1 (ws h.leveldb).1
      → let a = apply d no_checkpoint map_storage g n false wm in
        let b = apply d no_checkpoint leveldb_storage h n sync ws in
        (a.0 ≡ b.0) × Mirrors d a.1.map b.1.leveldb
  unfolding apply
  apply-Mirrors g h n sync wm ws mir same both = elim (Bool-cases (is_ok (ws h.leveldb).0)) [
    | inr bad ↦ rw bad (same, both)
    | inl done ↦ elim (Bool-cases sync) [
      | inr lazy ↦ rw (done, lazy) (same, both)
      | inl flush ↦
          let (e, kept') =
            write_disk_checkpoint-Mirrors (wm g.map).1 (record h { leveldb = (ws h.leveldb).1 }) n
              both in
          rw (done, flush) (same ∙ is_ok-eq (ws h.leveldb).0 done ∙ sym e, kept')
    ]
  ]

  -- One request, at the map and at the mirror.
  acquire_lock_either :
      (m s : LockDb d.Db) (info : LockInfo) (v : LocalRecordInfo) (sync sync' : Bool)
      (now now' other : ℕ)
      → Mirrors d m s
      → has_prefix ignore_prefix info.lock_key ≡ false
      → let a = acquire_lock d m (lock_key_info info) v sync now in
        let b =
          acquire_lock d s (lock_key_info info) (record v { expire_time_ms = other }) sync' now' in
        (a.0 ≡ b.0) × Mirrors d a.1 b.1
  acquire_lock_either m s info v sync sync' now now' other mir u =
      elim (Bool-cases (has_no_bytes info.lock_key)) [
        | inl e ↦
            let v' = record v { expire_time_ms = other } in
            rw
              (
                acquire_lock_no_key d m (lock_key_info info) v sync now e,
                acquire_lock_no_key d s (lock_key_info info) v' sync' now' e,
              )
              (refl, mir)
        | inr e ↦
            acquire_lock-Mirrors d w m s (lock_key_info info) v sync sync' now now' other mir (e, u)
      ]

  version_set_string_either :
      (m s : LockDb d.Db) (info : StringInfo) (v : LocalRecordInfo) (sync sync' : Bool)
      (now now' other : ℕ)
      → Mirrors d m s
      → has_prefix ignore_prefix info.key ≡ false
      → let a = version_set_string d m (string_key_info info) v sync now in
        let b =
          version_set_string d s
            (string_key_info info)
            (record v { expire_time_ms = other })
            sync'
            now' in
        (a.0 ≡ b.0) × Mirrors d a.1 b.1
  version_set_string_either m s info v sync sync' now now' other mir u =
      elim (Bool-cases (has_no_bytes info.key)) [
        | inl e ↦
            let v' = record v { expire_time_ms = other } in
            rw
              (
                version_set_string_no_key d m (string_key_info info) v sync now e,
                version_set_string_no_key d s (string_key_info info) v' sync' now' e,
              )
              (refl, mir)
        | inr e ↦
            version_set_string-Mirrors d w m s (string_key_info info) v sync sync' now now' other
              mir (e, u)
      ]

  -- A value that is for no key of the node's own comes to the same at the map and at the mirror.
  pub do_execute-Mirrors :
      (g h : GroupData d.Db) (n : ℕ) (args : LockPaxosArgs) (sync : Bool)
      (now later now' later' : ℕ)
      → Mirrors d g.map h.leveldb
      → is_client (some args) ≡ true
      → let a = do_execute d no_checkpoint map_storage g n args false now later in
        let b = do_execute d no_checkpoint leveldb_storage h n args sync now' later' in
        (a.0 ≡ b.0) × Mirrors d a.1.map b.1.leveldb
  unfolding do_execute
  do_execute-Mirrors g h n args sync now later now' later' mir u =
      elim (Option-cases args.acquire_lock_req) [
        | inr (info, e) ↦
            let v = asked n info.client_id info.lease_time_ms now in
            let v' = asked n info.client_id info.lease_time_ms now' in
            let (same, both) =
              acquire_lock_either g.map h.leveldb info v false sync later later' v'.expire_time_ms
                mir (ground arith) in
            let (p, q) =
              apply-Mirrors g h n sync (λ s. acquire_lock d s (lock_key_info info) v false later)
                (λ s. acquire_lock d s (lock_key_info info) v' sync later') mir same both in
            rw e (ap some p, q)
        | inl no_lock ↦ elim (Option-cases args.set_string_req) [
          | inl no_string ↦ rw (no_lock, no_string) (refl, mir)
          | inr (info, e) ↦
              let v = asked n info.value info.lease_time_ms now in
              let v' = asked n info.value info.lease_time_ms now' in
              let (same, both) =
                version_set_string_either g.map h.leveldb info v false sync later later'
                  v'.expire_time_ms mir (ground arith) in
              let (p, q) =
                apply-Mirrors g h n sync
                  (λ s. version_set_string d s (string_key_info info) v false later)
                  (λ s. version_set_string d s (string_key_info info) v' sync later') mir same
                  both in
              rw (no_lock, e) (ap some p, q)
        ]
      ]
