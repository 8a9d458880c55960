-- ===== src/Store/Base/Resume.antt =====
-- A client that comes back with the cursors of its last response.
use phxqueue.Common.{
  subst, Option, List, Option-cases, inl, inr, true, ap, ℕ, ◌≤◌, ◌≡◌, refl, ◌≢◌, false, some, arith,
  ◌==◌,
}
use phxqueue.Common.Int.{pos}
use phxqueue.Common.RetCode.{RetCode, ret_ok, is_ok}
use phxqueue.Store.Meta.{StoreMetaQueue, no_cursor}
use phxqueue.Store.CheckPoint.{CheckPointStat}
use phxqueue.Store.Sync.{SyncCtrl, ltb_ℤ, get_cursor_id}
use phxqueue.Store.Sync.Slots.{IsSized, InRange}
use phxqueue.Store.Sync.Resume.{adjust-update_both}
use phxqueue.Store.Base.{GetRequest, Topic, Chosen}
use phxqueue.Store.Base.Get.{GetResponse, client_cursors, start_cursors, remember, get_from, get}

client_cursors-remember :
    (sync : SyncCtrl) (req : GetRequest) (g q prev next : ℕ)
    → IsSized sync
    → InRange sync g q
    → req.consumer_group_id ≡ pos g
    → req.queue_id ≡ pos q
    → req.random ≡ false
    → prev ≢ no_cursor
    → next ≢ no_cursor
    → prev ≤ next
    → let (ret, sync') = remember sync req prev next in
      (ret ≡ ret_ok)
      × (client_cursors sync' (record req { prev_cursor_id = prev; next_cursor_id = next })
          ≡ some (prev, next))
unfolding client_cursors remember
client_cursors-remember sync req g q prev next z r eg eq er p n le =
    let (ret, code, adjusted) = adjust-update_both sync g q prev next z r p le in
    let pe : prev == no_cursor ≡ false = ground arith in
    let ne : next == no_cursor ≡ false = ground arith in
    rw (eg, eq, er, pe, ne, ret, code, adjusted) (refl, refl)

-- The request with the cursors of a response.
abbrev pub with_cursors : GetRequest → GetResponse → GetRequest
with_cursors req resp = record req {
  prev_cursor_id = resp.prev_cursor_id;
  next_cursor_id = resp.next_cursor_id;
}

-- A Get that succeeded has kept the cursors of its response.
get_from-remember :
    (crc32 : ℕ → ℕ → ℕ) (t : Topic) (c : Chosen) (stat : Option CheckPointStat) (clock : ℕ → ℕ)
    (qs qs' : List StoreMetaQueue) (sync sync' : SyncCtrl) (req : GetRequest) (resp : GetResponse)
    (cursors : ℕ × ℕ)
    → req.random ≡ false
    → get_from crc32 t c stat clock qs sync req cursors ≡ (ret_ok, resp, qs', sync')
    → remember sync req resp.prev_cursor_id resp.next_cursor_id ≡ (ret_ok, sync')
unfolding get_from
get_from-remember crc32 t c stat clock qs qs' sync sync' req resp (prev, start) r h = ground arith

-- The guards before the loop let the request through.
abbrev pub IsServed : Topic → ℕ → GetRequest → Type 0
IsServed t nqueue req =
    (is_ok t.topic_config ≡ true)
    × (is_ok (t.queue_info req.queue_id) ≡ true)
    × (ltb_ℤ req.queue_id nqueue ≡ true)

get-get_from :
    (crc32 : ℕ → ℕ → ℕ) (t : Topic) (c : Chosen) (nqueue : ℕ) (stat : Option CheckPointStat)
    (clock : ℕ → ℕ) (qs : List StoreMetaQueue) (sync : SyncCtrl) (req : GetRequest)
    (cursors : ℕ × ℕ)
    → req.random ≡ false
    → IsServed t nqueue req
    → client_cursors sync req ≡ some cursors
    → get crc32 t c nqueue stat clock qs sync req
      ≡ get_from crc32 t c stat clock qs sync req cursors
unfolding get start_cursors
get-get_from crc32 t c nqueue stat clock qs sync req (prev, next) r (a, b, e) h =
    rw (a, b, e, h, r) refl

get-inverts :
    (crc32 : ℕ → ℕ → ℕ) (t : Topic) (c : Chosen) (nqueue : ℕ) (stat : Option CheckPointStat)
    (clock : ℕ → ℕ) (qs qs' : List StoreMetaQueue) (sync sync' : SyncCtrl) (req : GetRequest)
    (resp : GetResponse)
    → req.random ≡ false
    → get crc32 t c nqueue stat clock qs sync req ≡ (ret_ok, resp, qs', sync')
    → remember sync req resp.prev_cursor_id resp.next_cursor_id ≡ (ret_ok, sync')
unfolding get
get-inverts crc32 t c nqueue stat clock qs qs' sync sync' req resp r h =
    let svr_prev = (get_cursor_id sync req.consumer_group_id req.queue_id true).1 in
    elim (Option-cases (client_cursors sync req)) [
      | inl none_e ↦ absurd (ground (arith, h, none_e))
      | inr (cursors, e) ↦
          get_from-remember crc32 t c stat clock qs qs' sync sync' req resp
            (start_cursors req svr_prev cursors) r (ground (arith, h, e))
    ]

-- A Get succeeds that is not random, of a queue and a consumer group in range, with an acknowledged and
-- a next cursor in its response, the acknowledged one not beyond the other. Whatever becomes of the
-- queues, of the log and of the checkpoint meanwhile, the next Get of the group that comes with these
-- two cursors, to a server that has kept its cursors and lets the request through, begins its loop
-- from just them.
pub get-get :
    (crc32 : ℕ → ℕ → ℕ) (t t' : Topic) (c c' : Chosen) (nqueue : ℕ)
    (stat stat' : Option CheckPointStat) (clock clock' : ℕ → ℕ) (qs qs' later : List StoreMetaQueue)
    (sync sync' : SyncCtrl) (req : GetRequest) (resp : GetResponse) (g q : ℕ)
    → IsSized sync
    → InRange sync g q
    → req.consumer_group_id ≡ pos g
    → req.queue_id ≡ pos q
    → req.random ≡ false
    → get crc32 t c nqueue stat clock qs sync req ≡ (ret_ok, resp, qs', sync')
    → resp.prev_cursor_id ≢ no_cursor
    → resp.next_cursor_id ≢ no_cursor
    → resp.prev_cursor_id ≤ resp.next_cursor_id
    → IsServed t' nqueue req
    → get crc32 t' c' nqueue stat' clock' later sync' (with_cursors req resp)
      ≡ get_from crc32 t' c' stat' clock' later sync'
          (with_cursors req resp)
          (resp.prev_cursor_id, resp.next_cursor_id)
get-get crc32 t t' c c' nqueue stat stat' clock clock' qs qs' later sync sync' req resp g q z r eg
      eq er h p n le served =
    let kept = get-inverts crc32 t c nqueue stat clock qs qs' sync sync' req resp er h in
    let (ret, resumed) =
      client_cursors-remember sync req g q resp.prev_cursor_id resp.next_cursor_id z r eg eq er p n
        le in
    let same : (remember sync req resp.prev_cursor_id resp.next_cursor_id).1 ≡ sync' =
      ap (λ (x : RetCode × SyncCtrl). x.1) kept in
    get-get_from crc32 t' c' nqueue stat' clock' later sync' (with_cursors req resp)
      (resp.prev_cursor_id, resp.next_cursor_id) er served
      (subst
        (λ (x : SyncCtrl).
          client_cursors x (with_cursors req resp)
          ≡ some (resp.prev_cursor_id, resp.next_cursor_id))
        same resumed)
