-- ===== src/Store/Sync.antt =====
-- phxqueue/store/syncctrl.cpp: for each queue and consumer group, the cursor that the group has
-- acknowledged (prev) and the one up to which it has been given items (next). The mapped file is the
-- list of its slots; an access outside it is undefined in C++, reads a blank slot here and writes
-- nothing, and `Slots.get_idx-lt` says when there is none.
pub mod Slots
pub mod Adjust
pub mod Resume
mod Tests
use phxqueue.Common.{
  ℕ, suc, ◌+◌, ◌-◌, ◌*◌, ◌^◌, Bool, true, false, ◌&&◌, ◌||◌, not, List, [], ◌∷◌, ltb, leb, ◌==◌,
  if◌then◌else◌, length, get_elem?, set, Option, none, some,
}
use phxqueue.Common.Int.{ℤ, pos, negsuc, pos_part, neg_part}
use phxqueue.Common.RetCode.{
  RetCode, ret_ok, ret_err_arg, ret_err_cursor_not_found, ret_err_range_queue, ret_err_sys,
}
use phxqueue.Store.Meta.{no_cursor, StoreMetaQueue, meta_of, size, size_gt}

-- SYNCCTRL_MAGIC.
abbrev pub magic : ℕ
magic = 9_980_256

pub record Item : Type 0 where
  pub prev_magic : ℕ
  pub next_magic : ℕ
  pub prev_cursor_id : ℕ
  pub next_cursor_id : ℕ

-- A slot of zero bytes.
abbrev pub blank : Item
blank = record { prev_magic = 0; next_magic = 0; prev_cursor_id = 0; next_cursor_id = 0 }

pub record SyncCtrl : Type 0 where
  pub nconsumer_group : ℕ
  pub nqueue : ℕ
  pub buf : List Item

abbrev pub ltb_ℤ : ℤ → ℕ → Bool
ltb_ℤ (pos a) n = ltb a n
ltb_ℤ (negsuc a) n = true

abbrev pub leb_ℤ : ℤ → ℕ → Bool
leb_ℤ (pos a) n = leb a n
leb_ℤ (negsuc a) n = true

abbrev pub is_zero : ℤ → Bool
is_zero (pos a) = a == 0
is_zero (negsuc a) = false

-- The test that each operation begins with, on two `int`s. It lets negative ones through.
unfoldable pub bad_ids : SyncCtrl → ℤ → ℤ → Bool
bad_ids s group queue =
    is_zero group || not (leb_ℤ group s.nconsumer_group) || not (ltb_ℤ queue s.nqueue)

-- `queue_id * nconsumer_group + consumer_group_id - 1`, converted from `int` to `size_t`.
unfoldable pub get_idx : ℕ → ℤ → ℤ → ℕ
get_idx n group queue =
    let up = pos_part queue * n + pos_part group in
    let down = neg_part queue * n + neg_part group + 1 in
    if leb down up then up - down else 2 ^ 64 - (down - up)

abbrev pub or_blank : Option Item → Item
or_blank none = blank
or_blank (some i) = i

unfoldable pub item_at : SyncCtrl → ℤ → ℤ → Item
item_at s group queue = or_blank (get_elem? s.buf (get_idx s.nconsumer_group group queue))

unfoldable pub put_item : SyncCtrl → ℤ → ℤ → Item → SyncCtrl
put_item s group queue i = record s { buf = set s.buf (get_idx s.nconsumer_group group queue) i }

abbrev pub has_prev : Item → Bool
has_prev i = i.prev_magic == magic

abbrev pub has_next : Item → Bool
has_next i = i.next_magic == magic

-- The client's cursors are not those that the server knows: its next one is not the one last given,
-- or its acknowledged one is beyond it.
unfoldable pub is_stale : Item → ℕ → ℕ → Bool
is_stale i prev next =
    not (has_next i) || not (i.next_cursor_id == next) || (not (prev == no_cursor) && ltb next prev)

-- The second test: the server's acknowledged cursor replaces an older one.
unfoldable pub catch_up : Item → ℕ → ℕ
catch_up i prev =
    if has_prev i && (prev == no_cursor || ltb prev i.prev_cursor_id)
    then i.prev_cursor_id
    else prev

unfoldable pub adjust_item : Item → ℕ → ℕ → RetCode × ℕ × ℕ
adjust_item i prev next =
    if is_stale i prev next
    then if has_prev i
      then (ret_ok, catch_up i i.prev_cursor_id, i.prev_cursor_id)
      else (ret_err_cursor_not_found, prev, next)
    else (ret_ok, catch_up i prev, next)

-- `SyncCtrl::AdjustNextCursorID`: the code and the two cursors.
unfoldable pub adjust_next_cursor_id : SyncCtrl → ℤ → ℤ → ℕ → ℕ → RetCode × ℕ × ℕ
adjust_next_cursor_id s group queue prev next =
    if bad_ids s group queue
    then (ret_err_arg, prev, next)
    else adjust_item (item_at s group queue) prev next

unfoldable pub updated : Item → ℕ → Bool → Item
updated i c true = record i { prev_magic = magic; prev_cursor_id = c }
updated i c false = record i { next_magic = magic; next_cursor_id = c }

-- `SyncCtrl::UpdateCursorID`.
unfoldable pub update_cursor_id : SyncCtrl → ℤ → ℤ → ℕ → Bool → RetCode × SyncCtrl
update_cursor_id s group queue c is_prev =
    if bad_ids s group queue
    then (ret_err_arg, s)
    else (ret_ok, put_item s group queue (updated (item_at s group queue) c is_prev))

unfoldable pub read_item : Item → Bool → RetCode × ℕ
read_item i true =
    if has_prev i then (ret_ok, i.prev_cursor_id) else (ret_err_cursor_not_found, no_cursor)
read_item i false =
    if has_next i then (ret_ok, i.next_cursor_id) else (ret_err_cursor_not_found, no_cursor)

-- `SyncCtrl::GetCursorID`.
unfoldable pub get_cursor_id : SyncCtrl → ℤ → ℤ → Bool → RetCode × ℕ
get_cursor_id s group queue is_prev =
    if bad_ids s group queue
    then (ret_err_arg, no_cursor)
    else read_item (item_at s group queue) is_prev

-- `SyncCtrl::ClearCursorID`.
pub clear_cursor_id : SyncCtrl → ℤ → ℤ → RetCode × SyncCtrl
clear_cursor_id s group queue =
    if bad_ids s group queue then (ret_err_arg, s) else (ret_ok, put_item s group queue blank)

-- `SyncCtrl::Flush`; `synced` is what `msync` says of the slot.
pub flush : SyncCtrl → ℤ → ℤ → Bool → RetCode
flush s group queue synced =
    if bad_ids s group queue then ret_err_arg else if synced then ret_ok else ret_err_sys

-- `SyncCtrl::GetBackLogByCursorID`, on the queue that `BaseMgr::GetMetaQueue` finds.
pub get_back_log : Option StoreMetaQueue → ℕ → RetCode × ℤ
get_back_log none c = (ret_err_range_queue, pos 0)
get_back_log (some q) c = (ret_ok, if c == no_cursor then size q else size_gt q (meta_of c))
