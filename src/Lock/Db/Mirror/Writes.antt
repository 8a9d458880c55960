-- ===== src/Lock/Db/Mirror/Writes.antt =====
-- SetRecord and DeleteRecord at the map and at the mirror.
use phxqueue.Common.{◌≡◌, sym, ap, ◌∙◌, ◌≢◌, Bool, false, inl, inr, none, some, arith, Bool-cases}
use phxqueue.Common.RetCode.{ret_ok}
use phxqueue.Common.Key.{Bytes, bytes_key, bytes_eq, bytes_eq_iff}
use phxqueue.Common.Dict.{lookup, insert, erase, lookup-insert, lookup-erase}
use phxqueue.Lock.Disk.{LocalRecordInfo, Disk, Working}
use phxqueue.Lock.Db.{
  LockDb, leveldb_storage, has_no_bytes, found, parsed, get_record, set_record, delete_record,
  disk_get, disk_set, disk_delete,
}
use phxqueue.Lock.Db.Records.{get_record-set_record, get_record-set_record_ne}
use phxqueue.Lock.Db.Mirror.{kept, Mirrors}

module _ (d : Disk) (w : Working d) where
  set_record-disk :
      (s : LockDb d.Db) (k : Bytes) (v : LocalRecordInfo) (sync : Bool)
      → s.storage_type ≡ leveldb_storage
      → has_no_bytes k ≡ false
      → (s' : LockDb d.Db) × (set_record d s k v sync ≡ (ret_ok, s'))
        × (s'.storage_type ≡ leveldb_storage)
  unfolding set_record disk_set
  set_record-disk s k v sync t key =
      let (b, e) = w.serialize_ok (record v { expire_time_ms = 0 }) in
      let (db, p) = w.put_ok s.leveldb k b sync in
      (record s { leveldb = db }, ground (arith, e, p), t)

  delete_record-disk :
      (s : LockDb d.Db) (k : Bytes) (sync : Bool)
      → s.storage_type ≡ leveldb_storage
      → has_no_bytes k ≡ false
      → (s' : LockDb d.Db) × (delete_record d s k sync ≡ (ret_ok, s'))
        × (s'.storage_type ≡ leveldb_storage)
        × (get_record d s' k ≡ found d none)
        × ((j : Bytes) → j ≢ k → get_record d s' j ≡ get_record d s j)
  unfolding delete_record disk_delete get_record disk_get parsed found
  delete_record-disk s k sync t key =
      let (db, p) = w.delete_ok s.leveldb k sync in
      (
        record s { leveldb = db },
        ground (arith, p),
        t,
        ground (arith, w.read-delete_self s.leveldb db k sync p),
        λ j ne. ground (arith, w.read-delete_ne s.leveldb db k j sync p ne),
      )

  set_agrees :
      (m : LockDb d.Db) (s s' : LockDb d.Db) (k j : Bytes) (v v' : LocalRecordInfo) (sync : Bool)
      → s.storage_type ≡ leveldb_storage
      → has_no_bytes k ≡ false
      → kept (some v) ≡ kept (some v')
      → set_record d s k v' sync ≡ (ret_ok, s')
      → get_record d s j ≡ found d (kept (lookup j m.map))
      → get_record d s' j ≡ found d (kept (lookup j (insert k v m.map)))
  unfolding found
  set_agrees m s s' k j v v' sync t key same e old = elim (Bool-cases (bytes_eq j k)) [
    | inl eq ↦
        rw (lookup-insert j k v m.map, eq)
          (ap (get_record d s') ((bytes_eq_iff j k).0 eq)
            ∙ get_record-set_record d w.faithful s s' k v' sync t key e
            ∙ ap (found d) (sym same))
    | inr ne ↦
        rw (lookup-insert j k v m.map, ne)
          (get_record-set_record_ne d w.faithful s s' k j v' sync t key
              (λ p. ground (arith, (bytes_eq_iff j k).1 p)) e
            ∙ old)
  ]

  delete_agrees :
      (m s s' : LockDb d.Db) (k j : Bytes)
      → get_record d s' k ≡ found d none
      → (j ≢ k → get_record d s' j ≡ get_record d s j)
      → get_record d s j ≡ found d (kept (lookup j m.map))
      → get_record d s' j ≡ found d (kept (lookup j (erase k m.map)))
  delete_agrees m s s' k j gone others old = elim (Bool-cases (bytes_eq j k)) [
    | inl eq ↦
        rw (lookup-erase j k m.map, eq) (ap (get_record d s') ((bytes_eq_iff j k).0 eq) ∙ gone)
    | inr ne ↦
        rw (lookup-erase j k m.map, ne) (others (λ p. ground (arith, (bytes_eq_iff j k).1 p)) ∙ old)
  ]

  pub set_record-Mirrors :
      (m s : LockDb d.Db) (k : Bytes) (v v' : LocalRecordInfo) (sync sync' : Bool)
      → Mirrors d m s
      → has_no_bytes k ≡ false
      → kept (some v) ≡ kept (some v')
      → (s' : LockDb d.Db) × (set_record d s k v' sync' ≡ (ret_ok, s'))
        × Mirrors d (record m { map = insert k v m.map }) s'
  set_record-Mirrors m s k v v' sync sync' h key same =
      let (s', e, t) = set_record-disk s k v' sync' h.on_disk key in
      (
        s',
        e,
        record {
          in_memory = h.in_memory;
          on_disk = t;
          agree = λ j u. set_agrees m s s' k j v v' sync' h.on_disk key same e (h.agree j u);
        },
      )

  pub delete_record-Mirrors :
      (m s : LockDb d.Db) (k : Bytes) (sync : Bool)
      → Mirrors d m s
      → has_no_bytes k ≡ false
      → (s' : LockDb d.Db) × (delete_record d s k sync ≡ (ret_ok, s'))
        × Mirrors d (record m { map = erase k m.map }) s'
  delete_record-Mirrors m s k sync h key =
      let (s', e, t, gone, others) = delete_record-disk s k sync h.on_disk key in
      (
        s',
        e,
        record {
          in_memory = h.in_memory;
          on_disk = t;
          agree = λ j u. delete_agrees m s s' k j gone (others j) (h.agree j u);
        },
      )
