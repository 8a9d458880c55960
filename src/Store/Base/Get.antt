-- ===== src/Store/Base/Get.antt =====
-- phxqueue/store/basemgr.cpp: `Get`, around its loop.
use phxqueue.Common.{ℕ, true, false, not, Option, none, some, List, [], ltb, ◌==◌, if◌then◌else◌}
use phxqueue.Common.RetCode.{
  RetCode, ret_ok, is_ok, is_negative, ret_err_range_queue, ret_err_get_adjust_cursor_id_fail,
  ret_err_get_update_cursor_id_fail,
}
use phxqueue.Store.Meta.{StoreMetaQueue, no_cursor}
use phxqueue.Store.Sync.{SyncCtrl, ltb_ℤ, adjust_next_cursor_id, get_cursor_id, update_cursor_id}
use phxqueue.Store.CheckPoint.{CheckPointStat, get_check_point}
use phxqueue.Store.Base.{QItem, GetRequest, Topic, Chosen, Scan, queue_at, put_queue, scan}

pub record GetResponse : Type 0 where
  pub items : List QItem
  pub prev_cursor_id : ℕ
  pub next_cursor_id : ℕ

abbrev pub no_response : GetResponse
no_response = record { items = []; prev_cursor_id = 0; next_cursor_id = 0 }

-- The client's cursors as `AdjustNextCursorID` leaves them; none where it fails. A random request
-- keeps its own.
unfoldable pub client_cursors : SyncCtrl → GetRequest → Option (ℕ × ℕ)
client_cursors sync req =
    if req.random
    then some (req.prev_cursor_id, req.next_cursor_id)
    else let (ret, prev, next) =
        adjust_next_cursor_id sync req.consumer_group_id req.queue_id req.prev_cursor_id
          req.next_cursor_id in
      if is_negative ret
      then none
      else if not (is_ok ret)
      then some (no_cursor, no_cursor)
      else some (prev, next)

-- The cursors that the loop begins with, the acknowledged one first.
unfoldable pub start_cursors : GetRequest → ℕ → ℕ × ℕ → ℕ × ℕ
start_cursors req svr_prev (prev, next) =
    if req.random then (svr_prev, if ltb next svr_prev then svr_prev else next) else (prev, next)

unfoldable pub check_point_or_none : Option CheckPointStat → ℕ
check_point_or_none none = no_cursor
check_point_or_none (some stat) = (get_check_point stat).1

-- The cursors that the server keeps after a request that is not a random one.
unfoldable pub remember : SyncCtrl → GetRequest → ℕ → ℕ → RetCode × SyncCtrl
remember sync req prev next =
    let (ret, sync') =
      if prev == no_cursor
      then (ret_ok, sync)
      else update_cursor_id sync req.consumer_group_id req.queue_id prev true in
    if not (is_ok ret)
    then (ret_err_get_update_cursor_id_fail, sync')
    else let (code, sync'') =
        if next == no_cursor
        then (ret_ok, sync')
        else update_cursor_id sync' req.consumer_group_id req.queue_id next false in
      (if is_ok code then ret_ok else ret_err_get_update_cursor_id_fail, sync'')

abbrev first_scan : StoreMetaQueue → ℕ → Scan
first_scan q next = record {
  queue = q;
  next_cursor_id = next;
  items = [];
  byte_size = 0;
  get_loop_start_ts = 0;
}

-- `BaseMgr::Get` from its loop on, which begins with these cursors, the acknowledged one first.
unfoldable pub get_from :
    (ℕ → ℕ → ℕ)
    → Topic
    → Chosen
    → Option CheckPointStat
    → (ℕ → ℕ)
    → List StoreMetaQueue
    → SyncCtrl
    → GetRequest
    → ℕ × ℕ
    → RetCode × GetResponse × List StoreMetaQueue × SyncCtrl
get_from crc32 t c stat clock qs sync req (prev, start) =
    let cp = check_point_or_none stat in
    let (ret, s) =
      scan crc32 t c req 512 cp prev clock (first_scan (queue_at qs req.queue_id) start) in
    let qs' = put_queue qs req.queue_id s.queue in
    if not (is_ok ret)
    then (ret, record no_response { items = s.items }, qs', sync)
    else let resp : GetResponse = record {
      items = s.items;
      prev_cursor_id = prev;
      next_cursor_id = s.next_cursor_id;
    } in
      if req.random
      then (ret_ok, resp, qs', sync)
      else let (code, sync') = remember sync req prev s.next_cursor_id in (code, resp, qs', sync')

-- `BaseMgr::Get` on a node with `nqueue` queues; `stat` is the checkpoint of the queue's group.
unfoldable pub get :
    (ℕ → ℕ → ℕ)
    → Topic
    → Chosen
    → ℕ
    → Option CheckPointStat
    → (ℕ → ℕ)
    → List StoreMetaQueue
    → SyncCtrl
    → GetRequest
    → RetCode × GetResponse × List StoreMetaQueue × SyncCtrl
get crc32 t c nqueue stat clock qs sync req =
    if not (is_ok t.topic_config)
    then (t.topic_config, no_response, qs, sync)
    else if not (is_ok (t.queue_info req.queue_id))
    then (t.queue_info req.queue_id, no_response, qs, sync)
    else if not (ltb_ℤ req.queue_id nqueue)
    then (ret_err_range_queue, no_response, qs, sync)
    else elim (client_cursors sync req) [
      | none ↦ (ret_err_get_adjust_cursor_id_fail, no_response, qs, sync)
      | some cursors ↦
          let svr_prev = (get_cursor_id sync req.consumer_group_id req.queue_id true).1 in
          get_from crc32 t c stat clock qs sync req (start_cursors req svr_prev cursors)
    ]
