-- ===== src/Lock/Group/Clean/Expiry.antt =====
-- Which locks the cleaner deletes.
use phxqueue.Common.{
  ℕ, ◌<◌, ◌≤◌, ◌≡◌, ◌∙◌, subst, Bool, true, false, ◌⊎◌, inl, inr, some, List, [], ◌∷◌, ◌++◌, arith,
  Bool-cases, Option-cases,
}
use phxqueue.Common.RetCode.{is_ok}
use phxqueue.Common.Key.{Bytes, bytes_key, bytes_eq, bytes_eq_iff}
use phxqueue.Common.Dict.{Dict, lookup}
use phxqueue.Lock.Disk.{LocalRecordInfo, Disk}
use phxqueue.Lock.Db.{LockDb, map_storage, has_no_bytes, uint64_max, get_record, found}
use phxqueue.Lock.Db.Walk.{forward_loop_key}
use phxqueue.Lock.Db.Acquire.{get_record-memory, get_record_no_key}
use phxqueue.Lock.Group.{GroupData}
use phxqueue.Lock.Group.Machine.{LockPaxosArgs, LockOption}
use phxqueue.Lock.Group.Machine.Held.{Entry, run, spares, execute_keeps, run-snoc}
use phxqueue.Lock.Group.Machine.Versions.{Ascends, IsUpTo, run_versions, run_memory}
use phxqueue.Lock.Group.Clean.{clean_args, is_expired, judge, next_stale}

module _ (d : Disk) (no_checkpoint : ℕ) where
  judge_expired :
      (m : LockDb d.Db) (k : Bytes) (now : ℕ) (args : LockPaxosArgs) (seen : Bool)
      → m.storage_type ≡ map_storage
      → judge d no_checkpoint k (get_record d m k) now ≡ (some args, seen)
      → (r : LocalRecordInfo) × (lookup k m.map ≡ some r)
        × (has_no_bytes k ≡ false)
        × (is_expired r now ≡ true)
        × (args ≡ clean_args k r)
  unfolding judge found
  judge_expired m k now args seen t h = elim (Bool-cases (has_no_bytes k)) [
    | inl e ↦ absurd (ground (arith, get_record_no_key d m k e, h))
    | inr e ↦ elim (Option-cases (lookup k m.map)) [
      | inl missing ↦ absurd (ground (arith, get_record-memory d m k (t, e), h, missing))
      | inr (r, there) ↦ elim (Bool-cases (is_expired r now)) [
        | inl old ↦
            (r, there, e, old, ground (arith, get_record-memory d m k (t, e), h, there, old))
        | inr live ↦ absurd (ground (arith, get_record-memory d m k (t, e), h, there, live))
      ]
    ]
  ]

  forward_loop_key_stays :
      (m : LockDb d.Db)
      → let m' = (forward_loop_key d m).2 in (m'.map ≡ m.map) × (m'.storage_type ≡ m.storage_type)
  unfolding forward_loop_key
  forward_loop_key_stays m = ground arith

  next_stale_expired :
      (m m' : LockDb d.Db) (now : ℕ) (args : LockPaxosArgs) (seen : Bool)
      → m.storage_type ≡ map_storage
      → next_stale d no_checkpoint m now ≡ ((some args, seen), m')
      → (k : Bytes) × (r : LocalRecordInfo) × (lookup k m.map ≡ some r)
        × (has_no_bytes k ≡ false)
        × (is_expired r now ≡ true)
        × (args ≡ clean_args k r)
  unfolding next_stale
  next_stale_expired m m' now args seen t h =
      let (ret, k, m1) = forward_loop_key d m in
      let (same, t') = forward_loop_key_stays m in
      elim (Bool-cases (is_ok ret)) [
        | inr e ↦ absurd (ground (arith, h, e))
        | inl e ↦
            let judged : judge d no_checkpoint k (get_record d m1 k) now ≡ (some args, seen) =
              ground (arith, h, e) in
            let (r, there, key, old, a) = judge_expired m1 k now args seen (t' ∙ t) judged in
            (
              k,
              r,
              subst (λ (x : Dict Bytes LocalRecordInfo). lookup k x ≡ some r) same there,
              key,
              old,
              a,
            )
      ]

  clean_args_spare :
      (k j : Bytes) (r live : LocalRecordInfo) (now : ℕ)
      → is_expired r now ≡ true
      → is_expired live now ≡ false
      → (j ≡ k → (live ≡ r) ⊎ (r.version < live.version))
      → spares j live.version (some (clean_args k r)) ≡ true
  clean_args_spare k j r live now old alive later = elim (Bool-cases (bytes_eq j k)) [
    | inr ne ↦ rw ne
    | inl e ↦ elim (later ((bytes_eq_iff j k).0 e)) [
      | inl same ↦ absurd (ground (arith, same, old, alive))
      | inr newer ↦ ground (arith, newer, e)
    ]
  ]

  live_not_expired :
      (r : LocalRecordInfo) (now : ℕ)
      → (r.lease_time_ms ≡ uint64_max) ⊎ (now ≤ r.expire_time_ms)
      → is_expired r now ≡ false
  live_not_expired r now (inl e) = ground (arith, e)
  live_not_expired r now (inr le) = ground (arith, le)

  -- In memory no record is of a later instance than n. The cleaner picks a request at some time, values
  -- of later instances are executed in order, and then the request is. No record whose lease has no
  -- end, or had not ended at the time when the cleaner looked, is lost by it, whoever wrote it in the
  -- meantime.
  pub next_stale-spares :
      (opt : LockOption) (g : GroupData d.Db) (m' : LockDb d.Db) (now : ℕ) (args : LockPaxosArgs)
      (seen : Bool) (n : ℕ) (es : List Entry) (last : Entry) (j : Bytes) (live : LocalRecordInfo)
      → g.map.storage_type ≡ map_storage
      → IsUpTo d no_checkpoint opt n g
      → next_stale d no_checkpoint g.map now ≡ ((some args, seen), m')
      → Ascends n es
      → last.value ≡ some args
      → lookup j (run d no_checkpoint opt g es).map.map ≡ some live
      → (live.lease_time_ms ≡ uint64_max) ⊎ (now ≤ live.expire_time_ms)
      → lookup j (run d no_checkpoint opt g (es ++ last ∷ [])).map.map ≡ some live
  next_stale-spares opt g m' now args seen n es last j live t up picked asc ev there alive =
      let (k, r, found_r, key, old, a) = next_stale_expired g.map m' now args seen t picked in
      let g' = run d no_checkpoint opt g es in
      let spared = clean_args_spare k j r live now old (live_not_expired live now alive) (λ e.
        run_versions d no_checkpoint opt g es n k r live t up asc found_r
          (subst (λ (x : Bytes). lookup x g'.map.map ≡ some live) e there)) in
      let spared' : spares j live.version last.value ≡ true = rw (ev, a) spared in
      rw (run-snoc d no_checkpoint opt g es last)
        (execute_keeps d no_checkpoint opt g' last.instance_id last.value last.now last.later j live
          (run_memory d no_checkpoint opt g es t) there spared').1
