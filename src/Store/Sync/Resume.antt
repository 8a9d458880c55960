-- ===== src/Store/Sync/Resume.antt =====
-- A group that comes back with the cursors that were written for it.
use phxqueue.Common.{ℕ, ◌≤◌, ◌≡◌, refl, ◌≢◌, Bool, true, false, arith}
use phxqueue.Common.Int.{pos}
use phxqueue.Common.RetCode.{ret_ok}
use phxqueue.Store.Meta.{no_cursor}
use phxqueue.Store.Sync.{
  SyncCtrl, Item, item_at, put_item, updated, update_cursor_id, is_stale, catch_up, adjust_item,
  adjust_next_cursor_id,
}
use phxqueue.Store.Sync.Slots.{
  IsSized, InRange, bad_ids-InRange, item_at-put_self, put_item-IsSized,
}

put_item-InRange :
    (s : SyncCtrl) (g q : ℕ) (i : Item) → InRange s g q → InRange (put_item s (pos g) (pos q) i) g q
unfolding put_item
put_item-InRange s g q i r = r

adjust-updated :
    (i : Item) (prev next : ℕ)
    → prev ≢ no_cursor
    → prev ≤ next
    → adjust_item (updated (updated i prev true) next false) prev next ≡ (ret_ok, prev, next)
unfolding adjust_item updated is_stale catch_up
adjust-updated i prev next real le = ground arith

update-InRange :
    (s : SyncCtrl) (g q cursor : ℕ) (side : Bool)
    → InRange s g q
    → update_cursor_id s (pos g) (pos q) cursor side
      ≡ (ret_ok, put_item s (pos g) (pos q) (updated (item_at s (pos g) (pos q)) cursor side))
unfolding update_cursor_id
update-InRange s g q cursor side r = rw (bad_ids-InRange s g q r)

pub adjust-update_both :
    (s : SyncCtrl) (g q prev next : ℕ)
    → IsSized s
    → InRange s g q
    → prev ≢ no_cursor
    → prev ≤ next
    → let (ret, s1) = update_cursor_id s (pos g) (pos q) prev true in
      let (code, s2) = update_cursor_id s1 (pos g) (pos q) next false in
      (ret ≡ ret_ok)
      × (code ≡ ret_ok)
      × (adjust_next_cursor_id s2 (pos g) (pos q) prev next ≡ (ret_ok, prev, next))
unfolding adjust_next_cursor_id
adjust-update_both s g q prev next z r real le =
    let i = updated (item_at s (pos g) (pos q)) prev true in
    let s1 = put_item s (pos g) (pos q) i in
    let z1 = put_item-IsSized s g q i z in
    let r1 = put_item-InRange s g q i r in
    let j = updated (item_at s1 (pos g) (pos q)) next false in
    let r2 = put_item-InRange s1 g q j r1 in
    rw (update-InRange s g q prev true r, update-InRange s1 g q next false r1)
      (
        refl,
        refl,
        rw
            (
              bad_ids-InRange (put_item s1 (pos g) (pos q) j) g q r2,
              item_at-put_self s1 g q j z1 r1,
              item_at-put_self s g q i z r,
            )
            (adjust-updated (item_at s (pos g) (pos q)) prev next real le),
      )
