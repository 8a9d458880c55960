-- ===== src/Store/Tests.antt =====
-- The theorems on the store node at concrete inputs.
use phxqueue.Common.{
  ℕ, ◌<◌, ◌≤◌, ◌≡◌, ◌≢◌, ◌⊎◌, refl, true, false, All, none, some, List, [], ◌∷◌, ◌++◌, arith,
}
use phxqueue.Common.Int.{pos}
use phxqueue.Common.RetCode.{ret_ok}
use phxqueue.Store.Meta.{
  StoreMeta, StoreMetaQueue, no_cursor, empty_meta, meta_of, next, upper_bound,
}
use phxqueue.Store.Base.{
  QItem, AddRequest, GetRequest, Topic, Chosen, chosen, Scan, scan, round, is_late, add, no_items,
  queue_at,
}
use phxqueue.Store.Base.Deliver.{unseen, due_all, Delivers, scan-Delivers}
use phxqueue.Store.Base.Unseen.{ids, scan-unseen}
use phxqueue.Store.Base.Added.{add-appends}
use phxqueue.Store.Base.Get.{
  GetResponse, client_cursors, start_cursors, check_point_or_none, remember, get_from, get,
}
use phxqueue.Store.Base.Resume.{get-get}
use phxqueue.Store.Sync.{
  SyncCtrl, blank, adjust_next_cursor_id, adjust_item, is_stale, catch_up, update_cursor_id,
  bad_ids, item_at, put_item, get_idx, updated, get_cursor_id, read_item,
}
use phxqueue.Store.Machine.{QueueDetail, StoreState, sync_cursor_id}
use phxqueue.Store.Machine.Forward.{IsAcked, slot, sync_cursor_id_forward}

abbrev sum_crc : ℕ → ℕ → ℕ
sum_crc pre cursor = pre

abbrev topic : Topic
topic = record {
  topic_config = ret_ok;
  queue_info = λ q. ret_ok;
  is_valid_queue = λ q. true;
  should_skip = λ g x. false;
  byte_size = λ x. 1;
  get_loop_max_time_ms = 100;
  items_byte_size_limit = 50;
}

abbrev item : QItem
item = record { cursor_id = 0; atime = 1; atime_ms = 0; body = [] }

abbrev paxos : Chosen
paxos = record {
  instance_value = λ i.
      chosen (
        record { sm_id = 1; add_req = some (record { queue_id = pos 0; items = item ∷ [] }) } ∷ []);
  min_chosen_instance_id = 0;
}

abbrev ask : GetRequest
ask = record {
  queue_id = pos 0;
  consumer_group_id = pos 1;
  prev_cursor_id = 3;
  next_cursor_id = 4;
  random = false;
  limit = 2;
  atime = 0;
  atime_ms = 0;
}

-- Three cursors, of which the client has been given the first.
abbrev begin : Scan
begin = record {
  queue = record { metas = meta_of 4 ∷ meta_of 6 ∷ meta_of 9 ∷ []; last_dequeue_meta = empty_meta };
  next_cursor_id = 4;
  items = [];
  byte_size = 0;
  get_loop_start_ts = 0;
}

scan-unseen_example :
    let s' = (scan sum_crc topic paxos ask 512 no_cursor 3 (λ n. 7) begin).1 in
    (xs : List ℕ) × (6 ∷ 9 ∷ [] ≡ xs ++ ids (unseen s'.next_cursor_id s'.queue.metas))
    × (s'.items ≡ due_all sum_crc topic paxos ask 3 xs)
scan-unseen_example = scan-unseen sum_crc topic paxos ask 512 3 (λ n. 7) begin (omega arith)

-- The same with a checkpoint beyond the queue: every instance is read from the log.
scan-Delivers_example :
    (xs : List ℕ) × Delivers sum_crc topic paxos ask 100 3 begin
      (scan sum_crc topic paxos ask 512 100 3 (λ n. 7) begin).1
      xs
scan-Delivers_example =
    scan-Delivers sum_crc topic paxos ask 512 100 3 (λ n. 7) begin (omega arith) (omega arith)

abbrev queue : StoreMetaQueue
queue = record { metas = meta_of 4 ∷ []; last_dequeue_meta = empty_meta }

abbrev adding : AddRequest
adding = record { queue_id = pos 0; items = item ∷ [] }

add-appends_example :
    let (ret, qs') = add sum_crc topic (queue ∷ []) 7 adding in
    ((ret ≡ ret_ok)
      × (no_items (item ∷ []) ≡ false)
      × All (λ x. x.cursor_id < 7) queue.metas
      × (b : StoreMeta) × (b.cursor_id ≡ 7)
      × ((queue_at qs' (pos 0)).metas ≡ meta_of 4 ∷ b ∷ []))
    ⊎ ((qs' ≡ queue ∷ []) × ((no_items (item ∷ []) ≡ true) ⊎ (ret ≢ ret_ok)))
add-appends_example =
    add-appends sum_crc topic (queue ∷ []) 7 0 adding refl (omega arith) (omega arith) (omega arith)

-- One queue with one consumer group, which has acknowledged nothing.
abbrev file : SyncCtrl
file = record { nconsumer_group = 1; nqueue = 1; buf = blank ∷ [] }

-- A response with the cursors 3 and 4, since the queue holds nothing beyond 4.
abbrev again : GetRequest
again = record ask { prev_cursor_id = 3; next_cursor_id = 4 }

abbrev known : SyncCtrl
known = record file {
  buf =
      record {
        prev_magic = 9_980_256;
        next_magic = 9_980_256;
        prev_cursor_id = 3;
        next_cursor_id = 4;
      }
      ∷ [];
}

abbrev answer : GetResponse
answer = record { items = []; prev_cursor_id = 3; next_cursor_id = 4 }

get-get_example :
    get sum_crc topic paxos 1 none (λ n. 9) (queue ∷ []) known again
    ≡ get_from sum_crc topic paxos none (λ n. 9) (queue ∷ []) known again (3, 4)
unfolding get get_from client_cursors start_cursors remember adjust_next_cursor_id adjust_item
    is_stale catch_up update_cursor_id scan round is_late next upper_bound bad_ids item_at put_item
    get_idx updated check_point_or_none get_cursor_id read_item
get-get_example =
    get-get sum_crc topic topic paxos paxos 1 none none (λ n. 7) (λ n. 9) (queue ∷ []) (queue ∷ [])
      (queue ∷ []) known known ask answer 1 0 refl (omega arith) refl refl refl refl (omega arith)
      (omega arith) (omega arith) (refl, refl, refl)

-- The group has acknowledged 7; an older and a newer cursor come.
abbrev acknowledged : StoreState
acknowledged = record {
  queues = queue ∷ [];
  sync = record file {
    buf =
        record { prev_magic = 9_980_256; next_magic = 0; prev_cursor_id = 7; next_cursor_id = 0 }
        ∷ [];
  };
}

abbrev told : List QueueDetail
told =
    record {
      queue_id = pos 0;
      consumer_group_details =
          record { consumer_group_id = pos 1; prev_cursor_id = 5 }
          ∷ record { consumer_group_id = pos 1; prev_cursor_id = 8 }
          ∷ [];
    }
    ∷ []

sync_cursor_id_forward_example :
    let s' = (sync_cursor_id acknowledged told).1 in
    IsAcked (slot s'.sync 0) × (7 ≤ (slot s'.sync 0).prev_cursor_id)
sync_cursor_id_forward_example =
    sync_cursor_id_forward acknowledged told 0 ((omega arith, (omega arith, tt)), tt)
      (refl, omega arith)
