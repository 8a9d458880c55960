-- ===== src/Scheduler/Reload.antt =====
-- phxqueue/scheduler/schedulermgr.cpp: how the topics and their consumers follow the configuration.
-- What the configuration answers is an argument.
use phxqueue.Common.{
  ℕ, Bool, true, false, ◌&&◌, ◌||◌, not, Option, none, some, List, [], ◌∷◌, ◌==◌, if◌then◌else◌,
  length,
}
use phxqueue.Common.RetCode.{RetCode, ret_ok, is_ok}
use phxqueue.Common.Int.{ℤ, pos, eqb_ℤ}
use phxqueue.Common.Key.{nat_key, int_key}
use phxqueue.Common.Dict.{Dict, lookup, insert}
use phxqueue.Scheduler.Topic.{ConsumerInfo, TopicData, new_consumer}

-- `SchedulerMgrImpl`, with the ids that stand in `topic_id2lock_map`.
pub record SchedulerMgr : Type 0 where
  pub master_expire_time_ms : ℕ
  pub topics : Dict ℤ TopicData
  pub locks : List ℤ

abbrev pub is_elem : ℤ → List ℤ → Bool
is_elem x [] = false
is_elem x (y ∷ ys) = eqb_ℤ x y || is_elem x ys

abbrev pub is_there : {V : Type 0} → Option V → Bool
is_there none = false
is_there (some v) = true

abbrev pub all_there : List ℤ → Dict ℤ TopicData → Bool
all_there [] m = true
all_there (x ∷ xs) m = is_there (lookup x m) && all_there xs m

-- `TopicData()` at a time.
abbrev pub new_topic : ℕ → TopicData
new_topic now = record { consumers = []; conf_last_mod_time = 0; init_time = now }

-- The loop that adds the topics which are not there; both maps keep what they have.
unfoldable pub add_topics : ℕ → List ℤ → SchedulerMgr → SchedulerMgr
add_topics now [] s = s
add_topics now (x ∷ xs) s = add_topics now xs (
    if is_there (lookup x s.topics) then s else record s {
      topics = insert x (new_topic now) s.topics;
      locks = if is_elem x s.locks then s.locks else x ∷ s.locks;
    })

-- The loop that removes the topics which are not configured. After `it = erase(it)` it goes on with
-- `++it`, past the topic that follows; past the end, which is undefined, it gives `none`.
unfoldable pub remove_topics : List ℤ → List ℤ → Dict ℤ TopicData → Option (Dict ℤ TopicData)
remove_topics ids locks [] = some []
remove_topics ids locks ((x, t) ∷ []) =
    if is_elem x ids || not (is_elem x locks) then some ((x, t) ∷ []) else none
remove_topics ids locks ((x, t) ∷ (y, u) ∷ m) =
    let next = remove_topics ids locks ((y, u) ∷ m) in
    let skipping = remove_topics ids locks m in
    if is_elem x ids || not (is_elem x locks)
    then elim next [ none ↦ none | some m' ↦ some ((x, t) ∷ m') ]
    else elim skipping [ none ↦ none | some m' ↦ some ((y, u) ∷ m') ]

-- `SchedulerMgr::ReloadTopicConfig`, where the configuration has the ids in ascending order.
unfoldable pub reload_topic_config :
    RetCode → List ℤ → ℕ → SchedulerMgr → Option (RetCode × SchedulerMgr)
reload_topic_config ret ids now s =
    if not (is_ok ret)
    then some (ret, s)
    else if length s.topics == length ids && all_there ids s.topics
    then some (ret_ok, s)
    else let s' = add_topics now ids s in
      if length ids == length s'.topics
      then some (ret_ok, s')
      else elim (remove_topics ids s'.locks s'.topics) [
        | none ↦ none
        | some m ↦ some (ret_ok, record s' { topics = m })
      ]

-- `SchedulerMgr::GetConsumerConfigDetail`: the address and the scale of each consumer; the first entry
-- for an address counts.
unfoldable pub scales_of : List (ℕ × ℤ) → Dict ℕ ℤ → Dict ℕ ℤ
scales_of [] acc = acc
scales_of ((addr, scale) ∷ xs) acc =
    scales_of xs (elim (lookup addr acc) [ none ↦ insert addr scale acc | some w ↦ acc ])

unfoldable pub get_consumer_config_detail : RetCode × List (ℕ × ℤ) → RetCode × Dict ℕ ℤ
get_consumer_config_detail (ret, consumers) =
    if not (is_ok ret) then (ret, []) else (ret, scales_of consumers [])

abbrev pub all_known : Dict ℕ ℤ → Dict ℕ ConsumerInfo → Bool
all_known [] m = true
all_known ((addr, scale) ∷ xs) m = is_there (lookup addr m) && all_known xs m

unfoldable pub add_consumers : Dict ℕ ℤ → Dict ℕ ConsumerInfo → Dict ℕ ConsumerInfo
add_consumers [] m = m
add_consumers ((addr, scale) ∷ xs) m = add_consumers xs (
    if is_there (lookup addr m)
    then m
    else insert addr (record new_consumer { weight = scale; init_weight = scale }) m)

unfoldable pub remove_consumers : Dict ℕ ℤ → Dict ℕ ConsumerInfo → Dict ℕ ConsumerInfo
remove_consumers scales [] = []
remove_consumers scales ((addr, c) ∷ m) =
    if is_there (lookup addr scales)
    then (addr, c) ∷ remove_consumers scales m
    else remove_consumers scales m

-- `consumer_addr2scale_map[addr]`: zero if the address is not there.
abbrev pub scale_or_zero : Option ℤ → ℤ
scale_or_zero none = pos 0
scale_or_zero (some w) = w

unfoldable pub set_init_weights : Dict ℕ ℤ → Dict ℕ ConsumerInfo → Dict ℕ ConsumerInfo
set_init_weights scales [] = []
set_init_weights scales ((addr, c) ∷ m) =
    (addr, record c { init_weight = scale_or_zero (lookup addr scales) })
    ∷ set_init_weights scales m

-- `SchedulerMgr::ReloadConsumerConfig`: the code, `modified` and the topic. A failure of
-- GetConsumerConfigDetail is only logged, and leaves no scales.
unfoldable pub reload_consumer_config :
    ℕ → RetCode → RetCode × List (ℕ × ℤ) → TopicData → RetCode × Bool × TopicData
reload_consumer_config mod_time config consumers t =
    if mod_time == t.conf_last_mod_time
    then (ret_ok, false, t)
    else if not (is_ok config)
    then (config, false, t)
    else let scales = (get_consumer_config_detail consumers).1 in
      let added = add_consumers scales t.consumers in
      let removed =
        if length scales == length added then added else remove_consumers scales added in
      let m =
        if length t.consumers == length scales && all_known scales t.consumers
        then t.consumers
        else removed in
      (
        ret_ok,
        true,
        record t { consumers = set_init_weights scales m; conf_last_mod_time = mod_time },
      )
