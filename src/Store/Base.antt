-- ===== src/Store/Base.antt =====
-- phxqueue/store/basemgr.cpp: items go into the queues of a store node by cursor, and out again in
-- the loop of `Get`. Of the topic's configuration and of the paxos node the code asks what the two
-- records `Topic` and `Chosen` hold. `clock` is read once in each round of the loop.
pub mod Get
pub mod Added
pub mod Logged
pub mod Deliver
pub mod Unseen
pub mod Resume
use phxqueue.Common.{
  ℕ, zero, suc, ◌+◌, ◌%◌, ◌^◌, Bool, true, false, ◌&&◌, ◌||◌, not, Option, none, some, List, [],
  ◌∷◌, ◌++◌, ltb, leb, ◌==◌, if◌then◌else◌, length, get_elem?, set, map,
}
use phxqueue.Common.Int.{ℤ, pos, negsuc}
use phxqueue.Common.Key.{Bytes}
use phxqueue.Common.RetCode.{
  RetCode, ret_ok, is_ok, is_negative, ret_add_skip, ret_err_range_queue,
  ret_err_get_adjust_cursor_id_fail, ret_err_get_update_cursor_id_fail,
  ret_err_get_item_by_cursor_id, ret_err_paxos_not_chosen, ret_err_paxos_get_instance_value,
  ret_err_paxos_value_parse,
}
use phxqueue.Store.Meta.{
  StoreMeta, StoreMetaQueue, no_cursor, empty_queue, meta_of, next, push_back, back,
}
use phxqueue.Store.Sync.{SyncCtrl, ltb_ℤ, adjust_next_cursor_id, get_cursor_id, update_cursor_id}
use phxqueue.Store.CheckPoint.{CheckPointStat, get_check_point}

-- `comm::proto::QItem`, as far as the code reads it; `body` is all the rest.
pub record QItem : Type 0 where
  pub cursor_id : ℕ
  pub atime : ℕ
  pub atime_ms : ℕ
  pub body : Bytes

-- `comm::proto::AddRequest` and `GetRequest`, and what is set of `GetResponse`.
pub record AddRequest : Type 0 where
  pub queue_id : ℤ
  pub items : List QItem

pub record GetRequest : Type 0 where
  pub queue_id : ℤ
  pub consumer_group_id : ℤ
  pub prev_cursor_id : ℕ
  pub next_cursor_id : ℕ
  pub random : Bool
  -- A limit that is negative lets the loop make no round, as zero does.
  pub limit : ℕ
  pub atime : ℕ
  pub atime_ms : ℕ

-- What the topic's configuration answers: whether it can be had, whether the queue's description
-- can, whether a queue is in use, whether a consumer group skips an item (the store's own `SkipGet`
-- included), the size of an item, and the bounds on the loop.
pub record Topic : Type 0 where
  pub topic_config : RetCode
  pub queue_info : ℤ → RetCode
  pub is_valid_queue : ℤ → Bool
  pub should_skip : ℤ → QItem → Bool
  pub byte_size : QItem → ℕ
  pub get_loop_max_time_ms : ℕ
  pub items_byte_size_limit : ℕ

-- One of the values that were batched in an instance: the state machine that it is for, and the add
-- request in it, which is an empty one if there is none. `none` is a value that does not parse.
pub record BatchValue : Type 0 where
  pub sm_id : ℕ
  pub add_req : Option AddRequest

-- The answer of `GetInstanceValue`.
pub data InstanceValue : Type 0 where
  not_chosen_yet not_exist other_failure : InstanceValue
  chosen : List BatchValue → InstanceValue

-- The paxos group of a queue: what was chosen, and the least instance that is still stored.
pub record Chosen : Type 0 where
  pub instance_value : ℕ → InstanceValue
  pub min_chosen_instance_id : ℕ

abbrev pub same_queue : ℤ → ℤ → Bool
same_queue (pos a) (pos b) = a == b
same_queue (negsuc a) (negsuc b) = a == b
same_queue (pos a) (negsuc b) = false
same_queue (negsuc a) (pos b) = false

abbrev queue_or_empty : Option StoreMetaQueue → StoreMetaQueue
queue_or_empty none = empty_queue
queue_or_empty (some q) = q

-- `meta_queues[queue_id]`: out of range the access is undefined, reads an empty queue here and writes
-- nothing.
abbrev pub queue_at : List StoreMetaQueue → ℤ → StoreMetaQueue
queue_at qs (pos i) = queue_or_empty (get_elem? qs i)
queue_at qs (negsuc i) = empty_queue

abbrev pub put_queue : List StoreMetaQueue → ℤ → StoreMetaQueue → List StoreMetaQueue
put_queue qs (pos i) q = set qs i q
put_queue qs (negsuc i) q = qs

abbrev pub no_items : List QItem → Bool
no_items [] = true
no_items (x ∷ xs) = false

abbrev at_or_beyond : Option StoreMeta → ℕ → Bool
at_or_beyond none cursor_id = false
at_or_beyond (some m) cursor_id = leb cursor_id m.cursor_id

-- `BaseMgr::NeedSkipAdd`.
pub need_skip_add : Topic → List StoreMetaQueue → ℕ → AddRequest → Bool
need_skip_add t qs cursor_id req =
    if no_items req.items
    then true
    else if at_or_beyond (back (queue_at qs req.queue_id)) cursor_id
    then true
    else if not (is_ok t.topic_config)
    then true
    else not (t.is_valid_queue req.queue_id)

-- `BaseMgr::Add`; what `PushBack` returns is not looked at.
pub add : (ℕ → ℕ → ℕ) → Topic → List StoreMetaQueue → ℕ → AddRequest → RetCode × List StoreMetaQueue
add crc32 t qs cursor_id req =
    if not (is_ok t.topic_config)
    then (t.topic_config, qs)
    else if not (is_ok (t.queue_info req.queue_id))
    then (t.queue_info req.queue_id, qs)
    else if no_items req.items
    then (ret_ok, qs)
    else if need_skip_add t qs cursor_id req
    then (ret_add_skip, qs)
    else (
      ret_ok,
      put_queue qs req.queue_id (push_back crc32 (queue_at qs req.queue_id) (meta_of cursor_id)).1,
    )

-- `StoreSM::ID`.
abbrev pub store_sm_id : ℕ
store_sm_id = 1

-- What one batched value gives to a queue.
pub taken : ℤ → ℕ → BatchValue → Option (List QItem)
taken queue_id cursor_id v = if not (v.sm_id == store_sm_id) then some [] else elim v.add_req [
  | none ↦ none
  | some req ↦ some (
      if same_queue queue_id req.queue_id
      then map (λ (x : QItem). record x { cursor_id = cursor_id }) req.items
      else [])
]

pub collect : ℤ → ℕ → List BatchValue → RetCode × List QItem
collect queue_id cursor_id [] = (ret_ok, [])
collect queue_id cursor_id (v ∷ vs) =
    let (ret, rest) = collect queue_id cursor_id vs in
    elim (taken queue_id cursor_id v) [
      | none ↦ (ret_err_paxos_value_parse, [])
      | some xs ↦ if is_ok ret then (ret_ok, xs ++ rest) else (ret, xs ++ rest)
    ]

-- `BaseMgr::GetItemsByCursorID`.
pub get_items_by_cursor_id : Chosen → ℤ → ℕ → RetCode × List QItem
get_items_by_cursor_id c queue_id cursor_id = elim (c.instance_value cursor_id) [
  | not_chosen_yet ↦ (ret_err_paxos_not_chosen, [])
  | not_exist ↦ (ret_ok, [])
  | other_failure ↦ (ret_err_paxos_get_instance_value, [])
  | chosen values ↦ collect queue_id cursor_id values
]

-- The variables of the loop of `Get`.
pub record Scan : Type 0 where
  pub queue : StoreMetaQueue
  pub next_cursor_id : ℕ
  pub items : List QItem
  pub byte_size : ℕ
  pub get_loop_start_ts : ℕ

-- How a round ends: `continue` or the end of the body, `break`, or `return` with an error.
pub data Round : Type 0 where
  go : Scan → Round
  stop : Scan → Round
  quit : RetCode → Scan → Round

abbrev pub wanted : (QItem → Bool) → List QItem → List QItem
wanted skip [] = []
wanted skip (x ∷ xs) = if skip x then wanted skip xs else x ∷ wanted skip xs

abbrev pub total_size : (QItem → ℕ) → List QItem → ℕ
total_size size [] = 0
total_size size (x ∷ xs) = size x + total_size size xs

-- The item was added after the time that the request asks for.
abbrev pub is_after : GetRequest → List QItem → Bool
is_after req [] = false
is_after req (x ∷ xs) =
    not (req.atime == 0)
    && (ltb req.atime x.atime || x.atime == req.atime && ltb req.atime_ms x.atime_ms)

module _ (crc32 : ℕ → ℕ → ℕ) (t : Topic) (c : Chosen) (req : GetRequest) where
  -- From the cursor of a round to the round's end; `prev` is what the group has acknowledged.
  pub serve : ℕ → ℕ → Scan → Round
  serve prev cur s =
      if not (prev == no_cursor) && leb cur prev
      then go (record s { next_cursor_id = cur })
      else let (ret, items) = get_items_by_cursor_id c req.queue_id cur in
        if is_negative ret
        then quit ret_err_get_item_by_cursor_id s
        else if not (is_ok ret)
        then stop s
        else if no_items items
        then go (record s { next_cursor_id = cur })
        else if not (length s.items == 0) && ltb req.limit (length s.items + length items)
        then stop s
        else if is_after req items
        then stop s
        else let new = wanted (t.should_skip req.consumer_group_id) items in
          let s' = record s {
            next_cursor_id = cur;
            items = s.items ++ new;
            byte_size = s.byte_size + total_size t.byte_size new;
          } in
          if leb t.items_byte_size_limit s'.byte_size then stop s' else go s'

  -- The cursor after `cur` before the checkpoint: instances below the least that is stored are passed
  -- over.
  pub replayed : ℕ → ℕ
  replayed cur =
      if not (c.min_chosen_instance_id == no_cursor) && ltb cur c.min_chosen_instance_id
      then c.min_chosen_instance_id
      else (cur + 1) % 2 ^ 64

  unfoldable pub is_late : Scan → ℕ → Bool
  is_late s now =
      not (s.get_loop_start_ts == 0)
      && ltb ((s.get_loop_start_ts + t.get_loop_max_time_ms) % 2 ^ 64) now

  -- A round of the loop: behind the checkpoint `cp` cursors come from the queue, before it from the log.
  unfoldable pub round : ℕ → ℕ → ℕ → Scan → Round
  round cp prev now s =
      if is_late s now
      then stop s
      else let s' = record s {
        get_loop_start_ts = if s.get_loop_start_ts == 0 then now else s.get_loop_start_ts;
      } in
        if cp == no_cursor || leb cp s.next_cursor_id
        then (let (r, q) = next crc32 s.queue (meta_of s.next_cursor_id) in
            elim r [
              | none ↦ stop (record s' { queue = q })
              | some (m, ok) ↦ serve prev m.cursor_id (record s' { queue = q })
            ])
        else serve prev (replayed s.next_cursor_id) s'

  -- The loop: at most `left` rounds, as long as the limit is not reached.
  unfoldable pub scan : ℕ → ℕ → ℕ → (ℕ → ℕ) → Scan → RetCode × Scan
  scan zero cp prev clock s = (ret_ok, s)
  scan (suc left) cp prev clock s =
      if ltb (length s.items) req.limit
      then elim (round cp prev (clock left) s) [
        | go s' ↦ scan left cp prev clock s'
        | stop s' ↦ (ret_ok, s')
        | quit ret s' ↦ (ret, s')
      ]
      else (ret_ok, s)
