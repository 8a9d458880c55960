-- ===== src/Lock/Group/Restart.antt =====
-- Restarting a group: its checkpoints, and its map that is filled from the mirror.
use phxqueue.Common.{
  ℕ, suc, ◌^◌, ◌<◌, ◌≡◌, refl, ap, ◌∙◌, ◌≢◌, ◌⊎◌, inl, inr, Bool, true, false, ◌&&◌, not, Option,
  none, some, List, [], ◌∷◌, arith, if◌then◌else◌, Bool-cases, length, All, ◌==◌,
}
use phxqueue.Common.RetCode.{ret_ok, is_ok}
use phxqueue.Common.Key.{Bytes, bytes_key, bytes_eq}
use phxqueue.Common.Dict.{lookup, lookup-insert}
use phxqueue.Lock.Disk.{LocalRecordInfo, Disk, Faithful}
use phxqueue.Lock.Db.{
  LockDb, map_storage, leveldb_storage, ignore_data, user_data, ignore_prefix, has_prefix,
  has_no_bytes, add_time, set_record, disk_set,
}
use phxqueue.Lock.Db.Walk.{disk_valid, disk_next, disk_get_current}
use phxqueue.Lock.Db.Acquire.{set_record-memory, set_record_no_key}
use phxqueue.Lock.Db.Records.{disk_get-disk_set}
use phxqueue.Lock.Group.Decimal.{to_string, strtoul-to_string}
use phxqueue.Lock.Group.{
  GroupData, key_ignore_checkpoint, disk_get_either, checkpoint_of, read_disk_checkpoint,
  write_disk_checkpoint, read_restart_checkpoint, needs_restart, recover_entry, recover,
  recover_checkpoints,
}

module _ (d : Disk) (no_checkpoint : ℕ) where
  write_inverts :
      (g g' : GroupData d.Db) (cp : ℕ)
      → no_checkpoint ≢ cp
      → write_disk_checkpoint d no_checkpoint g cp ≡ (ret_ok, g')
      → (disk_set d g.leveldb key_ignore_checkpoint (to_string cp) true ≡ (ret_ok, g'.leveldb))
        × (g' ≡ record g { leveldb = g'.leveldb; disk_checkpoint = cp; memory_checkpoint = cp })
  unfolding write_disk_checkpoint
  write_inverts g g' cp ne h = ground arith

  -- A checkpoint of 64 bits that WriteDiskCheckpoint has written to LevelDB is the one that
  -- ReadDiskCheckpoint finds there after, and the group has held it since the write.
  pub read_disk_checkpoint-write_disk_checkpoint :
      (g g' : GroupData d.Db) (cp : ℕ)
      → Faithful d
      → g.leveldb.storage_type ≡ leveldb_storage
      → cp < 2 ^ 64
      → no_checkpoint ≢ cp
      → write_disk_checkpoint d no_checkpoint g cp ≡ (ret_ok, g')
      → read_disk_checkpoint d no_checkpoint g' ≡ (ret_ok, cp, g')
  unfolding read_disk_checkpoint disk_get_either checkpoint_of
  read_disk_checkpoint-write_disk_checkpoint g g' cp f t lt ne h =
      let (w, e) = write_inverts g g' cp ne h in
      ground (
        arith,
        disk_get-disk_set d f g.leveldb g'.leveldb key_ignore_checkpoint (to_string cp) true t refl
            w,
        strtoul-to_string cp lt,
      )

  write_leaves :
      (g : GroupData d.Db) (cp : ℕ)
      → no_checkpoint ≢ cp
      → g.memory_checkpoint ≡ g.disk_checkpoint
      → let (ret, g') = write_disk_checkpoint d no_checkpoint g cp in
        (g'.disk_checkpoint ≡ (if is_ok ret then cp else g.disk_checkpoint))
        × (g'.memory_checkpoint ≡ g'.disk_checkpoint)
  unfolding write_disk_checkpoint
  write_leaves g cp ne e = ground arith

  needs_restart-ne :
      (disk restart : ℕ)
      → needs_restart d no_checkpoint disk restart ≡ true
      → no_checkpoint ≢ restart
  unfolding needs_restart
  needs_restart-ne disk restart h = ground arith

  -- The restart checkpoint is there, and the disk's is not or is the earlier one.
  abbrev pub IsAhead : ℕ → ℕ → Type 0
  IsAhead restart disk = (restart ≢ no_checkpoint) × ((disk ≡ no_checkpoint) ⊎ (disk < restart))

  needs_restart-IsAhead :
      (disk restart : ℕ) → needs_restart d no_checkpoint disk restart ≡ true → IsAhead restart disk
  unfolding needs_restart
  needs_restart-IsAhead disk restart h = (
    ground arith,
    elim (Bool-cases (no_checkpoint == disk)) [
      | inl e ↦ inl (ground arith)
      | inr e ↦ inr (ground arith)
    ],
  )

  needs_restart-not-IsAhead :
      (disk restart : ℕ)
      → needs_restart d no_checkpoint disk restart ≡ false
      → ¬ IsAhead restart disk
  unfolding needs_restart
  needs_restart-not-IsAhead disk restart h (real, inl e) = ground arith
  needs_restart-not-IsAhead disk restart h (real, inr e) = ground arith

  recover_checkpoints_by_test :
      (g r : GroupData d.Db)
      → recover_checkpoints d no_checkpoint g ≡ some r
      → let (ret, disk, g') = read_disk_checkpoint d no_checkpoint g in
        let restart = (read_restart_checkpoint d no_checkpoint g').1 in
        let written = (write_disk_checkpoint d no_checkpoint g' restart).0 in
        (r.disk_checkpoint
          ≡ (if needs_restart d no_checkpoint disk restart && is_ok written then restart else disk))
        × (r.memory_checkpoint ≡ r.disk_checkpoint)
        × (r.last_instance_id ≡ r.disk_checkpoint)
  unfolding recover_checkpoints read_disk_checkpoint
  recover_checkpoints_by_test g r h =
      let (ret, disk, g') = read_disk_checkpoint d no_checkpoint g in
      let restart = (read_restart_checkpoint d no_checkpoint g').1 in
      elim (Bool-cases (needs_restart d no_checkpoint disk restart)) [
        | inl e ↦ ground (arith, e, write_leaves g' restart (needs_restart-ne disk restart e) refl)
        | inr e ↦ ground (arith, e)
      ]

  -- A group that has come back after a restart takes the instance of its checkpoint for the last one
  -- that was executed, and its three numbers agree. The checkpoint is the restart checkpoint where that
  -- is set, the disk's is not set or is less, and it could be written to the disk; where one of these
  -- fails it is the disk's.
  pub recover_checkpoints_meet :
      (g r : GroupData d.Db)
      → recover_checkpoints d no_checkpoint g ≡ some r
      → let (ret, disk, g') = read_disk_checkpoint d no_checkpoint g in
        let restart = (read_restart_checkpoint d no_checkpoint g').1 in
        let written = is_ok (write_disk_checkpoint d no_checkpoint g' restart).0 in
        (IsAhead restart disk → written ≡ true → r.disk_checkpoint ≡ restart)
        × ((¬ IsAhead restart disk) ⊎ (written ≡ false) → r.disk_checkpoint ≡ disk)
        × (r.memory_checkpoint ≡ r.disk_checkpoint)
        × (r.last_instance_id ≡ r.disk_checkpoint)
  recover_checkpoints_meet g r h =
      let (ret, disk, g') = read_disk_checkpoint d no_checkpoint g in
      let restart = (read_restart_checkpoint d no_checkpoint g').1 in
      let (value, memory, last) = recover_checkpoints_by_test g r h in
      elim (Bool-cases (needs_restart d no_checkpoint disk restart)) [
        | inl e ↦ (
          λ a w. value ∙ rw (e, w) refl,
          λ o. elim o [
            | inl behind ↦ absurd (behind (needs_restart-IsAhead disk restart e))
            | inr w ↦ value ∙ rw (e, w) refl
          ],
          memory,
          last,
        )
        | inr e ↦ (
          λ a w. absurd (needs_restart-not-IsAhead disk restart e a),
          λ o. value ∙ rw e refl,
          memory,
          last,
        )
      ]

abbrev system_key : Bytes → Bool
system_key k = has_prefix ignore_prefix k

module _ (d : Disk) (no_checkpoint : ℕ) where
  -- An entry of the mirror that a group can start from: the system's own, or one whose bytes parse.
  abbrev pub Readable : Bytes × Bytes → Type 0
  Readable (k, b) = (system_key k ≡ true) ⊎ ((r : LocalRecordInfo) × (d.parse b ≡ some r))

  -- What an entry says of a key, if it says anything.
  abbrev pub tells : Bytes → Bytes → Bytes → ℕ → Option LocalRecordInfo → Option LocalRecordInfo
  tells j k b now o =
      if bytes_eq j k && not (system_key k) && not (has_no_bytes k)
      then elim (d.parse b) [
        | none ↦ o
        | some r ↦ some (record r { expire_time_ms = add_time now r.lease_time_ms })
      ]
      else o

  -- The last entry that tells of the key is the one that counts.
  abbrev pub restored :
      Bytes → List (Bytes × Bytes) → (ℕ → ℕ) → Option LocalRecordInfo → Option LocalRecordInfo
  restored j [] clock o = o
  restored j ((k, b) ∷ es) clock o = restored j es clock (tells j k b (clock (suc (length es))) o)

  current_entry :
      (s : LockDb d.Db) (k b : Bytes) (es : List (Bytes × Bytes))
      → s.storage_type ≡ leveldb_storage
      → s.leveldb_it ≡ (k, b) ∷ es
      → disk_get_current d s ≡ (ret_ok, k, b, if system_key k then ignore_data else user_data)
  unfolding disk_get_current
  current_entry s k b es t e = ground arith

  after_entry :
      (s : LockDb d.Db) (k b : Bytes) (es : List (Bytes × Bytes))
      → s.storage_type ≡ leveldb_storage
      → s.leveldb_it ≡ (k, b) ∷ es
      → ((disk_next d s).storage_type ≡ leveldb_storage) × ((disk_next d s).leveldb_it ≡ es)
  unfolding disk_next
  after_entry s k b es t e = ground arith

  valid_entry :
      (s : LockDb d.Db) (x : Bytes × Bytes) (es : List (Bytes × Bytes))
      → s.storage_type ≡ leveldb_storage
      → s.leveldb_it ≡ x ∷ es
      → disk_valid d s ≡ true
  unfolding disk_valid
  valid_entry s x es t e = ground arith

  valid_end :
      (s : LockDb d.Db)
      → s.storage_type ≡ leveldb_storage
      → s.leveldb_it ≡ []
      → disk_valid d s ≡ false
  unfolding disk_valid
  valid_end s t e = ground arith

  -- What an entry of a user leaves.
  stored :
      (m : LockDb d.Db) (k b : Bytes) (r : LocalRecordInfo) (now : ℕ)
      → m.storage_type ≡ map_storage
      → system_key k ≡ false
      → d.parse b ≡ some r
      → let m' =
          (set_record d m k (record r { expire_time_ms = add_time now r.lease_time_ms }) true).1 in
        (m'.storage_type ≡ map_storage)
        × ((j : Bytes) → lookup j m'.map ≡ tells j k b now (lookup j m.map))
  stored m k b r now tm user p =
      let r' = record r { expire_time_ms = add_time now r.lease_time_ms } in
      elim (Bool-cases (has_no_bytes k)) [
        | inl e ↦ rw (set_record_no_key d m k r' true e) (tm, λ j. ground (arith, e))
        | inr e ↦
            rw (set_record-memory d m k r' true (tm, e))
              (tm, λ j. lookup-insert j k r' m.map ∙ ground (arith, e, user, p))
      ]

  recover_entry-restores :
      (s m : LockDb d.Db) (k b : Bytes) (es : List (Bytes × Bytes)) (now : ℕ)
      → s.storage_type ≡ leveldb_storage
      → m.storage_type ≡ map_storage
      → s.leveldb_it ≡ (k, b) ∷ es
      → Readable (k, b)
      → (m' : LockDb d.Db) × (recover_entry d no_checkpoint m (disk_get_current d s) now ≡ some m')
        × (m'.storage_type ≡ map_storage)
        × ((j : Bytes) → lookup j m'.map ≡ tells j k b now (lookup j m.map))
  unfolding recover_entry
  recover_entry-restores s m k b es now t tm e h = elim (Bool-cases (system_key k)) [
    | inl system ↦ (m, rw (current_entry s k b es t e, system), tm, λ j. ground (arith, system))
    | inr user ↦ elim h [
      | inl system ↦ absurd (ground (arith, system, user))
      | inr (r, p) ↦
          let (tm', kept) = stored m k b r now tm user p in
          (
            (set_record d m k (record r { expire_time_ms = add_time now r.lease_time_ms }) true).1,
            ground (arith, current_entry s k b es t e, user, p),
            tm',
            kept,
          )
    ]
  ]

  -- A restart from a mirror in LevelDB whose entries are the system's own or parse: the loop comes to
  -- its end, with fuel for one round more than there are entries, and leaves a map in memory in which
  -- each key has the record of the last user's entry for it, its expiry counted from the reading of
  -- the clock, and what it had before if there is none.
  pub recover-restores :
      (es : List (Bytes × Bytes)) (s m : LockDb d.Db) (clock : ℕ → ℕ)
      → s.storage_type ≡ leveldb_storage
      → m.storage_type ≡ map_storage
      → s.leveldb_it ≡ es
      → All Readable es
      → (s' m' : LockDb d.Db) × (recover d no_checkpoint (suc (length es)) s m clock
          ≡ some (s', m'))
        × (m'.storage_type ≡ map_storage)
        × ((j : Bytes) → lookup j m'.map ≡ restored j es clock (lookup j m.map))
  unfolding recover
  recover-restores [] s m clock t tm e h = (s, m, rw (valid_end s t e), tm, λ j. refl)
  recover-restores ((k, b) ∷ es) s m clock t tm e h =
      let (m1, step, tm1, told) =
        recover_entry-restores s m k b es (clock (suc (length es))) t tm e h.0 in
      let (s', m', run, tm', kept) =
        recover-restores es (disk_next d s) m1 clock (after_entry s k b es t e).0 tm1
          (after_entry s k b es t e).1 h.1 in
      (
        s',
        m',
        rw (valid_entry s (k, b) es t e, step) run,
        tm',
        λ j. kept j ∙ ap (λ (o : Option LocalRecordInfo). restored j es clock o) (told j),
      )
