-- ===== src/Store/Machine.antt =====
-- phxqueue/store/storesm.cpp, and `SyncCursorID` of phxqueue/store/syncctrl.cpp: what a chosen value does
-- to a store node.
pub mod Forward
use phxqueue.Common.{
  ℕ, Bool, true, false, ◌&&◌, ◌||◌, not, Option, none, some, List, [], ◌∷◌, ltb, leb, ◌==◌,
  if◌then◌else◌,
}
use phxqueue.Common.Int.{ℤ, pos, negsuc}
use phxqueue.Common.Key.{Bytes, bytes_eq}
use phxqueue.Common.RetCode.{RetCode, ret_ok, is_ok, is_negative, ret_err_arg}
use phxqueue.Store.Meta.{
  StoreMetaQueue, no_cursor, meta_of, clear_dequeue_stat, update_dequeue_stat,
}
use phxqueue.Store.Sync.{SyncCtrl, get_cursor_id, update_cursor_id}
use phxqueue.Store.CheckPoint.{CheckPointStat, get_check_point, update_check_point_and_flush}
use phxqueue.Store.Base.{AddRequest, Topic, same_queue, queue_at, put_queue, add}

-- `SyncCtrlInfo`, with the acknowledged cursors of some queues.
pub record ConsumerGroupDetail : Type 0 where
  pub consumer_group_id : ℤ
  pub prev_cursor_id : ℕ

pub record QueueDetail : Type 0 where
  pub queue_id : ℤ
  pub consumer_group_details : List ConsumerGroupDetail

pub record Addr : Type 0 where
  pub ip : Bytes
  pub port : ℤ
  pub paxos_port : ℤ

-- `StorePaxosArgs`.
pub record StorePaxosArgs : Type 0 where
  pub add_req : Option AddRequest
  pub sync_ctrl_info : Option (List QueueDetail)
  pub master_addr : Addr

pub record StoreState : Type 0 where
  pub queues : List StoreMetaQueue
  pub sync : SyncCtrl

-- A group's turn in `SyncCursorID`: an acknowledged cursor that is not older stays; else the new one is
-- written on both sides.
pub sync_group : SyncCtrl → ℤ → ConsumerGroupDetail → RetCode × SyncCtrl
sync_group s queue detail =
    let (ret, cur) = get_cursor_id s detail.consumer_group_id queue true in
    if is_ok ret && leb detail.prev_cursor_id cur
    then (ret_ok, s)
    else let (first, s') =
        update_cursor_id s detail.consumer_group_id queue detail.prev_cursor_id true in
      if not (is_ok first)
      then (first, s')
      else update_cursor_id s' detail.consumer_group_id queue detail.prev_cursor_id false

pub sync_groups : SyncCtrl → ℤ → List ConsumerGroupDetail → RetCode × SyncCtrl
sync_groups s queue [] = (ret_ok, s)
sync_groups s queue (detail ∷ details) =
    let (ret, s') = sync_group s queue detail in
    let rest = sync_groups s' queue details in if is_ok ret then rest else (ret, s')

-- The greatest cursor of the details; `-1` if there is none.
pub max_prev_cursor_id : ℕ → List ConsumerGroupDetail → ℕ
max_prev_cursor_id newest [] = newest
max_prev_cursor_id newest (detail ∷ details) =
    max_prev_cursor_id
      (if newest == no_cursor || ltb newest detail.prev_cursor_id
        then detail.prev_cursor_id
        else newest)
      details

-- What becomes of a queue's last cursor handed out.
pub dequeued : StoreMetaQueue → ℕ → StoreMetaQueue
dequeued q newest =
    if newest == no_cursor then clear_dequeue_stat q else update_dequeue_stat q (meta_of newest)

-- `SyncCtrl::SyncCursorID`.
pub sync_cursor_id : StoreState → List QueueDetail → RetCode × StoreState
sync_cursor_id s [] = (ret_ok, s)
sync_cursor_id s (detail ∷ details) =
    let (ret, sync') = sync_groups s.sync detail.queue_id detail.consumer_group_details in
    let newest = max_prev_cursor_id no_cursor detail.consumer_group_details in
    let qs =
      put_queue s.queues detail.queue_id (dequeued (queue_at s.queues detail.queue_id) newest) in
    let rest = sync_cursor_id (record { queues = qs; sync = sync' }) details in
    if is_ok ret then rest else (ret, record s { sync = sync' })

abbrev addr_eq : Addr → Addr → Bool
addr_eq a b = bytes_eq a.ip b.ip && same_queue a.port b.port && same_queue a.paxos_port b.paxos_port

abbrev has_bytes : Bytes → Bool
has_bytes [] = false
has_bytes (b ∷ bs) = true

pub execute_add : (ℕ → ℕ → ℕ) → Topic → StoreState → ℕ → Option AddRequest → RetCode × StoreState
execute_add crc32 t s cursor_id none = (ret_ok, s)
execute_add crc32 t s cursor_id (some req) =
    let (ret, qs) = add crc32 t s.queues cursor_id req in (ret, record s { queues = qs })

pub execute_sync : StoreState → Option (List QueueDetail) → RetCode × StoreState
execute_sync s none = (ret_ok, s)
execute_sync s (some info) = sync_cursor_id s info

-- `StoreSM::Execute`: whether it succeeded, the result for the proposer, whether the node gives up being
-- the master (if it runs), and the state. A value is what the generated parser makes of the bytes.
pub execute :
    (ℕ → ℕ → ℕ)
    → Topic
    → Addr
    → StoreState
    → ℕ
    → Option StorePaxosArgs
    → Bool × RetCode × Bool × StoreState
execute crc32 t self s instance_id none = (false, ret_err_arg, false, s)
execute crc32 t self s instance_id (some args) =
    let (ret, s') = execute_add crc32 t s instance_id args.add_req in
    if is_negative ret
    then (false, ret, false, s')
    else let (code, s'') = execute_sync s' args.sync_ctrl_info in
      if is_negative code
      then (false, code, false, s'')
      else (true, ret_ok, has_bytes args.master_addr.ip && not (addr_eq self args.master_addr), s'')

-- `StoreSM::GetCheckpointInstanceID`.
pub get_checkpoint_instance_id : Option CheckPointStat → ℕ
get_checkpoint_instance_id none = no_cursor
get_checkpoint_instance_id (some stat) =
    let (ret, cp) = get_check_point stat in if is_ok ret then cp else no_cursor

-- `StoreSM::LoadCheckpointState`, whose result is 0, -1 or -2.
pub load_checkpoint_state : Option CheckPointStat → ℕ → Bool → ℤ × Option CheckPointStat
load_checkpoint_state stat cp flushed = if cp == no_cursor then (pos 0, stat) else elim stat [
  | none ↦ (negsuc 0, none)
  | some s ↦
      let (ret, s') = update_check_point_and_flush s cp flushed in
      (if is_ok ret then pos 0 else negsuc 1, some s')
]
