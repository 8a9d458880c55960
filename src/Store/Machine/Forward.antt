-- ===== src/Store/Machine/Forward.antt =====
-- The acknowledged cursors under `SyncCursorID`.
use phxqueue.Common.{
  ℕ, ◌≤◌, ◌≡◌, ◌≢◌, refl, All, subst, inl, inr, true, false, ◌&&◌, List, [], ◌∷◌, arith, leb,
  Bool-cases, get_elem?, get_elem?-set_cases,
}
use phxqueue.Common.Int.{ℤ}
use phxqueue.Common.RetCode.{is_ok}
use phxqueue.Store.Sync.{
  SyncCtrl, Item, or_blank, get_idx, item_at, put_item, updated, bad_ids, has_prev, read_item,
  get_cursor_id, update_cursor_id,
}
use phxqueue.Store.Machine.{
  ConsumerGroupDetail, QueueDetail, StoreState, sync_group, sync_groups, sync_cursor_id,
  max_prev_cursor_id, dequeued,
}
use phxqueue.Store.Meta.{no_cursor}
use phxqueue.Store.Base.{queue_at, put_queue}

abbrev pub slot : SyncCtrl → ℕ → Item
slot s k = or_blank (get_elem? s.buf k)

-- The slot holds an acknowledged cursor, and not -1.
abbrev pub IsAcked : Item → Type 0
IsAcked i = (has_prev i ≡ true) × (i.prev_cursor_id ≢ no_cursor)

-- What a slot has acknowledged stays acknowledged.
abbrev pub KeepsAck : Item → Item → Type 0
KeepsAck i j = IsAcked i → IsAcked j × (i.prev_cursor_id ≤ j.prev_cursor_id)

-- No group is told of -1, which is no cursor.
abbrev pub NamesCursors : QueueDetail → Type 0
NamesCursors detail =
    All (λ (x : ConsumerGroupDetail). x.prev_cursor_id ≢ no_cursor) detail.consumer_group_details

abbrev pub AllKeepAck : SyncCtrl → SyncCtrl → Type 0
AllKeepAck s s' = (k : ℕ) → KeepsAck (slot s k) (slot s' k)

AllKeepAck-trans : (a b c : SyncCtrl) → AllKeepAck a b → AllKeepAck b c → AllKeepAck a c
AllKeepAck-trans a b c f g k h =
    let (h1, l1) = f k h in let (h2, l2) = g k h1 in (h2, omega (arith, l1, l2))

put_item-AllKeepAck :
    (s : SyncCtrl) (group queue : ℤ) (i : Item)
    → KeepsAck (item_at s group queue) i
    → AllKeepAck s (put_item s group queue i)
unfolding put_item item_at
put_item-AllKeepAck s group queue i keeps k h =
    elim (get_elem?-set_cases s.buf (get_idx s.nconsumer_group group queue) k i) [
      | inl same ↦ rw same (h, omega arith)
      | inr (e, new) ↦ rw new (subst (λ n. KeepsAck (slot s n) i) e keeps h)
    ]

update_next-AllKeepAck :
    (s : SyncCtrl) (group queue : ℤ) (c : ℕ)
    → AllKeepAck s (update_cursor_id s group queue c false).1
unfolding update_cursor_id updated
update_next-AllKeepAck s group queue c = elim (Bool-cases (bad_ids s group queue)) [
  | inl e ↦ rw e (λ k h. (h, omega arith))
  | inr e ↦ rw e (put_item-AllKeepAck s group queue _ (λ h. (h, omega arith)))
]

newer :
    (s : SyncCtrl) (group queue : ℤ) (c : ℕ)
    → bad_ids s group queue ≡ false
    → is_ok (get_cursor_id s group queue true).0 && leb c (get_cursor_id s group queue true).1
      ≡ false
    → c ≢ no_cursor
    → KeepsAck (item_at s group queue) (updated (item_at s group queue) c true)
unfolding get_cursor_id read_item updated
newer s group queue c e new real h = ((refl, real), ground arith)

update_prev-AllKeepAck :
    (s : SyncCtrl) (group queue : ℤ) (c : ℕ)
    → is_ok (get_cursor_id s group queue true).0 && leb c (get_cursor_id s group queue true).1
      ≡ false
    → c ≢ no_cursor
    → AllKeepAck s (update_cursor_id s group queue c true).1
unfolding update_cursor_id
update_prev-AllKeepAck s group queue c new real = elim (Bool-cases (bad_ids s group queue)) [
  | inl e ↦ rw e (λ k h. (h, omega arith))
  | inr e ↦ rw e (
      put_item-AllKeepAck s group queue (updated (item_at s group queue) c true)
        (newer s group queue c e new real))
]

sync_group-AllKeepAck :
    (s : SyncCtrl) (queue : ℤ) (detail : ConsumerGroupDetail)
    → detail.prev_cursor_id ≢ no_cursor
    → AllKeepAck s (sync_group s queue detail).1
unfolding sync_group
sync_group-AllKeepAck s queue detail real =
    let g = detail.consumer_group_id in
    let c = detail.prev_cursor_id in
    let (ret, cur) = get_cursor_id s g queue true in
    elim (Bool-cases (is_ok ret && leb c cur)) [
      | inl old ↦ rw old (λ k h. (h, omega arith))
      | inr new ↦
          let first = update_prev-AllKeepAck s g queue c new real in
          let s' = (update_cursor_id s g queue c true).1 in
          elim (Bool-cases (is_ok (update_cursor_id s g queue c true).0)) [
            | inl e ↦
                rw (new, e)
                  (AllKeepAck-trans s s' (update_cursor_id s' g queue c false).1 first
                    (update_next-AllKeepAck s' g queue c))
            | inr e ↦ rw (new, e) first
          ]
    ]

sync_groups-AllKeepAck :
    (s : SyncCtrl) (queue : ℤ) (details : List ConsumerGroupDetail)
    → All (λ (x : ConsumerGroupDetail). x.prev_cursor_id ≢ no_cursor) details
    → AllKeepAck s (sync_groups s queue details).1
unfolding sync_groups
sync_groups-AllKeepAck s queue [] real = λ k h. (h, omega arith)
sync_groups-AllKeepAck s queue (detail ∷ details) real =
    let s' = (sync_group s queue detail).1 in
    let one = sync_group-AllKeepAck s queue detail real.0 in
    elim (Bool-cases (is_ok (sync_group s queue detail).0)) [
      | inl e ↦ rw e (
          AllKeepAck-trans s s' (sync_groups s' queue details).1 one
            (sync_groups-AllKeepAck s' queue details real.1))
      | inr e ↦ rw e one
    ]

sync_cursor_id-AllKeepAck :
    (s : StoreState) (details : List QueueDetail)
    → All NamesCursors details
    → AllKeepAck s.sync (sync_cursor_id s details).1.sync
unfolding sync_cursor_id
sync_cursor_id-AllKeepAck s [] real = λ k h. (h, omega arith)
sync_cursor_id-AllKeepAck s (detail ∷ details) real =
    let one = sync_groups-AllKeepAck s.sync detail.queue_id detail.consumer_group_details real.0 in
    let sync' = (sync_groups s.sync detail.queue_id detail.consumer_group_details).1 in
    let newest = max_prev_cursor_id no_cursor detail.consumer_group_details in
    let qs =
      put_queue s.queues detail.queue_id (dequeued (queue_at s.queues detail.queue_id) newest) in
    let s' : StoreState = record { queues = qs; sync = sync' } in
    elim (Bool-cases (is_ok (sync_groups s.sync detail.queue_id detail.consumer_group_details).0)) [
      | inl e ↦ rw e (
          AllKeepAck-trans s.sync sync' (sync_cursor_id s' details).1.sync one
            (sync_cursor_id-AllKeepAck s' details real.1))
      | inr e ↦ rw e one
    ]

-- What SyncCursorID does to the cursors that the consumer groups have acknowledged, if it is told of no
-- -1, and whether it succeeds or not: a slot that holds an acknowledged cursor, which -1 is not, still
-- holds one, and it is not an older one.
pub sync_cursor_id_forward :
    (s : StoreState) (details : List QueueDetail) (k : ℕ)
    → All NamesCursors details
    → IsAcked (slot s.sync k)
    → let s' = (sync_cursor_id s details).1 in
      IsAcked (slot s'.sync k) × ((slot s.sync k).prev_cursor_id ≤ (slot s'.sync k).prev_cursor_id)
sync_cursor_id_forward s details k real h = sync_cursor_id-AllKeepAck s details real k h
