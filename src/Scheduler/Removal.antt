-- ===== src/Scheduler/Removal.antt =====
-- A topic that leaves the configuration.
use phxqueue.Common.{
  ℕ, ◌≡◌, ◌≢◌, refl, ap, ◌∙◌, true, false, none, List, [], ◌∷◌, ◌++◌, arith, ◌==◌, length, All,
}
use phxqueue.Common.RetCode.{ret_ok}
use phxqueue.Common.Int.{ℤ}
use phxqueue.Common.Key.{int_key}
use phxqueue.Common.Dict.{Dict}
use phxqueue.Scheduler.Topic.{TopicData}
use phxqueue.Scheduler.Reload.{
  SchedulerMgr, is_elem, all_there, add_topics, remove_topics, reload_topic_config,
}

-- The topic is in the configuration.
abbrev pub IsConfigured : List ℤ → ℤ × TopicData → Type 0
IsConfigured ids (x, t) = is_elem x ids ≡ true

add_topics_none :
    (now : ℕ) (ids : List ℤ) (s : SchedulerMgr)
    → all_there ids s.topics ≡ true
    → add_topics now ids s ≡ s
unfolding add_topics
add_topics_none now [] s h = refl
add_topics_none now (x ∷ xs) s h = ground (arith, add_topics_none now xs s)

remove_topics-last :
    (ids locks : List ℤ) (m : Dict ℤ TopicData) (x : ℤ) (t : TopicData)
    → All (IsConfigured ids) m
    → is_elem x ids ≡ false
    → is_elem x locks ≡ true
    → remove_topics ids locks (m ++ (x, t) ∷ []) ≡ none
unfolding remove_topics
remove_topics-last ids locks [] x t kept gone locked = ground arith
remove_topics-last ids locks ((y, u) ∷ []) x t kept gone locked = ground arith
remove_topics-last ids locks ((y, u) ∷ (z, v) ∷ m) x t kept gone locked =
    let rest = remove_topics-last ids locks ((z, v) ∷ m) x t kept.1 gone locked in
    rw (kept.0, rest) refl

-- The topic with the greatest id has left the configuration, and all others are in it. ReloadTopicConfig
-- then erases the last entry of its map, and its loop increments the iterator that `erase` has returned,
-- which is the end: what it does from there on is undefined.
pub reload_topic_config-last :
    (ids : List ℤ) (now : ℕ) (s : SchedulerMgr) (m : Dict ℤ TopicData) (x : ℤ) (t : TopicData)
    → s.topics ≡ m ++ (x, t) ∷ []
    → all_there ids s.topics ≡ true
    → length ids ≢ length s.topics
    → All (IsConfigured ids) m
    → is_elem x ids ≡ false
    → is_elem x s.locks ≡ true
    → reload_topic_config ret_ok ids now s ≡ none
unfolding reload_topic_config
reload_topic_config-last ids now s m x t e there ne kept gone locked =
    let undefined : remove_topics ids s.locks s.topics ≡ none =
      ap (remove_topics ids s.locks) e ∙ remove_topics-last ids s.locks m x t kept gone locked in
    let other : length ids == length s.topics ≡ false = ground arith in
    let other' : length s.topics == length ids ≡ false = ground arith in
    ground (arith, add_topics_none now ids s there, undefined, other, other')
