-- ===== src/Scheduler/Manager.antt =====
-- phxqueue/scheduler/schedulermgr.cpp: the requests of the consumers, and a round of the balance. The
-- consumers go by the codes of their addresses. What GetTopicConfigByTopicID answers is an argument;
-- `f` is `float` and `db` is `double`.
use phxqueue.Common.{
  ℕ, ◌*◌, Bool, true, false, ◌&&◌, ◌||◌, not, none, some, List, [], ◌∷◌, ltb, leb, if◌then◌else◌,
}
use phxqueue.Common.RetCode.{
  RetCode, ret_ok, is_ok, ret_err_logic, ret_err_not_master, ret_err_range_topic,
  ret_err_range_consumer,
}
use phxqueue.Common.Int.{ℤ, pos, eqb_ℤ}
use phxqueue.Common.Key.{Bytes, bytes_eq, nat_key, int_key}
use phxqueue.Common.Dict.{Dict, lookup, insert}
use phxqueue.Scheduler.Float.{Float}
use phxqueue.Scheduler.Topic.{ConsumerInfo, TopicData, TopicConfig, ms_after}
use phxqueue.Scheduler.Balance.{
  note_load, update_live, get_mean_load, check_imbalance, adjust_scale,
}
use phxqueue.Scheduler.Reload.{SchedulerMgr, is_elem, reload_consumer_config}

pub data Mode : Type 0 where
  static dynamic : Mode

-- `SchedulerMgr::GetMode`.
unfoldable pub get_mode : RetCode × TopicConfig → TopicData → ℕ → Mode
get_mode (ret, config) t now =
    if not (is_ok ret)
    then static
    else if leb now (ms_after t.init_time (3 * config.scheduler_get_scale_interval_s * 1000))
    then static
    else dynamic

abbrev has_no_bytes : Bytes → Bool
has_no_bytes [] = true
has_no_bytes (b ∷ bs) = false

-- "0.0.0.0".
abbrev any_ip : Bytes
any_ip = 48 ∷ 46 ∷ 48 ∷ 46 ∷ 48 ∷ 46 ∷ 48 ∷ []

-- `SchedulerMgr::IsForceMaster`, for a node with this address: `force` and `master`.
unfoldable pub is_force_master : Bytes → ℤ → RetCode × TopicConfig → Bool × Bool
is_force_master ip port (ret, config) =
    if not (is_ok ret)
    then (false, false)
    else if not (eqb_ℤ (pos 0) config.scheduler_master_port)
        && not (has_no_bytes config.scheduler_master_ip)
        && not (bytes_eq any_ip config.scheduler_master_ip)
    then (true, bytes_eq ip config.scheduler_master_ip && eqb_ℤ port config.scheduler_master_port)
    else (false, false)

-- `SchedulerMgr::IsMaster`; the configuration is that of the scheduler's own topic.
unfoldable pub is_master : Bytes → ℤ → RetCode × TopicConfig → SchedulerMgr → ℕ → Bool
is_master ip port own s now =
    let (force, master) = is_force_master ip port own in
    if force then master else ltb now s.master_expire_time_ms

-- `SchedulerMgr::RenewMaster`.
unfoldable pub renew_master : SchedulerMgr → ℕ → RetCode × SchedulerMgr
renew_master s expire_time_ms = (ret_ok, record s { master_expire_time_ms = expire_time_ms })

-- `SchedulerMgr::BuildTopicScaleResponse`.
unfoldable pub build_topic_scale_response : Dict ℕ ConsumerInfo → List (ℕ × ℤ)
build_topic_scale_response [] = []
build_topic_scale_response ((addr, c) ∷ m) = (addr, c.weight) ∷ build_topic_scale_response m

-- `GetAddrScaleRequest`.
pub record GetAddrScaleRequest : Type 0 where
  pub topic_id : ℤ
  pub addr : ℕ
  pub cpu : ℤ
  pub proc_used_ratio : ℤ

module _ (f db : Float) where
  -- `SchedulerMgr::GetAddrScale`; `master` is what IsMaster says, `skip` what NeedSkipUpdateLoad does.
  unfoldable pub get_addr_scale :
      Bool
      → (ℤ → RetCode × TopicConfig)
      → Bool
      → ℕ
      → SchedulerMgr
      → GetAddrScaleRequest
      → RetCode × List (ℕ × ℤ) × SchedulerMgr
  get_addr_scale master configs skip now s req =
      if not master then (ret_err_not_master, [], s) else elim (lookup req.topic_id s.topics) [
        | none ↦ (ret_err_range_topic, [], s)
        | some t ↦
            let (ret, config) = configs req.topic_id in
            if not (is_ok ret)
            then (ret, [], s)
            else if not (is_elem req.topic_id s.locks)
            then (ret_err_logic, [], s)
            else elim (lookup req.addr t.consumers) [
              | none ↦ (ret_err_range_consumer, [], s)
              | some c ↦
                  let t' = if skip then t else record t {
                    consumers =
                        insert req.addr (note_load f db config req.cpu req.proc_used_ratio now c)
                          t.consumers;
                  } in
                  (
                    ret_ok,
                    build_topic_scale_response t'.consumers,
                    record s { topics = insert req.topic_id t' s.topics },
                  )
            ]
      ]

  -- The turn of a topic in `SchedulerMgr::LoadBalance`, in which any failure ends the turn.
  unfoldable pub balance_topic :
      RetCode × TopicConfig → ℕ → RetCode → RetCode × List (ℕ × ℤ) → ℕ → TopicData → TopicData
  balance_topic config mod_time consumer_config consumers now t =
      let (ret, conf_modified, t1) = reload_consumer_config mod_time consumer_config consumers t in
      if not (is_ok ret) then t1 else elim (get_mode config t1 now) [
        | static ↦ t1
        | dynamic ↦
            let (live_ret, live_modified, t2) = update_live config t1 now in
            if not (is_ok live_ret)
            then t2
            else let (mean_ret, mean_load) = get_mean_load f db t2 in
              if not (is_ok mean_ret)
              then t2
              else let (check_ret, balanced) = check_imbalance f db config t2 mean_load in
                if not (is_ok check_ret)
                then t2
                else if conf_modified || live_modified || not balanced
                then (adjust_scale f db config t2 mean_load (conf_modified || live_modified)).1
                else t2
      ]
