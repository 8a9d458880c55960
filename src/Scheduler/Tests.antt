-- ===== src/Scheduler/Tests.antt =====
-- The theorems on the scheduler at concrete inputs, with whole numbers for `float` and `double`.
use phxqueue.Common.{◌≡◌, ◌↔◌, refl, true, none, [], ◌∷◌, arith, All}
use phxqueue.Common.RetCode.{ret_ok}
use phxqueue.Common.Int.{ℤ, pos, pos_part, ◌+ℤ◌, ◌*ℤ◌, ◌/ℤ◌, ltb_ℤ}
use phxqueue.Common.Key.{nat_key}
use phxqueue.Scheduler.Float.{Float}
use phxqueue.Scheduler.Topic.{ConsumerInfo, TopicData, TopicConfig, new_consumer}
use phxqueue.Scheduler.Balance.{check_imbalance}
use phxqueue.Scheduler.Live.{IsOverloaded, check_imbalance-inverted}
use phxqueue.Scheduler.Reload.{SchedulerMgr, reload_topic_config, new_topic}
use phxqueue.Scheduler.Removal.{reload_topic_config-last}

abbrev whole : Float
whole = record {
  Value = ℤ;
  of_int = λ a. a;
  add = ◌+ℤ◌;
  mul = ◌*ℤ◌;
  div = λ a b. a /ℤ pos_part b;
  lt = ltb_ℤ;
  to_int = λ a. a;
}

abbrev config : TopicConfig
config = record {
  scheduler_get_scale_interval_s = 10;
  scheduler_max_load = pos 80;
  scheduler_max_mean_load_percent = pos 150;
  scheduler_max_init_weight_percent = pos 200;
  scheduler_load_sticky = pos 5;
  scheduler_weight_sticky = pos 500;
  scheduler_hash_keep_time_s = 20;
  scheduler_master_ip = [];
  scheduler_master_port = pos 0;
  scheduler_load_use_proc_used_ratio = pos 0;
  scheduler_use_init_weight = pos 0;
}

abbrev consumer : ConsumerInfo
consumer = record new_consumer {
  weight = pos 100;
  init_weight = pos 100;
  sticky_load = pos 40;
  live = true;
  last_active_time = 5000;
}

abbrev idle : ConsumerInfo
idle = record consumer { sticky_load = pos 20; last_active_time = 1000 }

-- Two consumers under the codes of their addresses.
abbrev topic : TopicData
topic = record { consumers = (7, consumer) ∷ (9, idle) ∷ []; conf_last_mod_time = 1; init_time = 0 }

check_imbalance-inverted_example :
    (check_imbalance whole whole (ret_ok, config) topic (pos 30)).1 ≡ true
    ↔ All (IsOverloaded whole whole config (pos 30)) topic.consumers
check_imbalance-inverted_example = check_imbalance-inverted whole whole config topic (pos 30)

abbrev manager : SchedulerMgr
manager = record {
  master_expire_time_ms = 0;
  topics = (pos 1, new_topic 5) ∷ (pos 2, new_topic 5) ∷ [];
  locks = pos 1 ∷ pos 2 ∷ [];
}

reload_topic_config-last_example : reload_topic_config ret_ok (pos 1 ∷ []) 9 manager ≡ none
reload_topic_config-last_example =
    reload_topic_config-last (pos 1 ∷ []) 9 manager ((pos 1, new_topic 5) ∷ []) (pos 2)
      (new_topic 5) refl refl (omega arith) (refl, tt) refl refl
