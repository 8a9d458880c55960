-- ===== src/Scheduler/Balance.antt =====
-- phxqueue/scheduler/schedulermgr.cpp: the load of a consumer, who is alive, and the weights. What
-- GetTopicConfigByTopicID answers is an argument; `f` is `float` and `db` is `double`.
use phxqueue.Common.{
  ℕ, ◌+◌, ◌*◌, Bool, true, false, ◌&&◌, ◌||◌, not, none, some, [], ◌∷◌, ltb, leb, ◌==◌,
  if◌then◌else◌,
}
use phxqueue.Common.RetCode.{RetCode, ret_ok, is_ok, ret_err_logic, ret_no_live_consumer}
use phxqueue.Common.Int.{ℤ, pos, ◌+ℤ◌, ◌-ℤ◌, ◌*ℤ◌, ◌/ℤ◌, ltb_ℤ, eqb_ℤ, abs}
use phxqueue.Common.Key.{nat_key}
use phxqueue.Common.Dict.{Dict, lookup, insert}
use phxqueue.Scheduler.Float.{Float}
use phxqueue.Scheduler.Topic.{ConsumerInfo, TopicData, TopicConfig, update, mean, reset, ms_after}

-- `SchedulerMgr::UpdateLive` of one consumer: whether it has died or come alive, and the consumer.
unfoldable pub judge_live : ℕ → ℕ → ConsumerInfo → Bool × ConsumerInfo
judge_live keep_time_s now c =
    let deadline = ms_after c.last_active_time (keep_time_s * 1000) in
    if c.live && leb deadline now
    then (true, record (reset c) { live = false })
    else if not c.live && ltb now deadline
    then (true, record c { live = true })
    else (false, c)

unfoldable pub judge_all : ℕ → ℕ → Dict ℕ ConsumerInfo → Bool × Dict ℕ ConsumerInfo
judge_all keep_time_s now [] = (false, [])
judge_all keep_time_s now ((addr, c) ∷ m) =
    let (changed, c') = judge_live keep_time_s now c in
    let (modified, m') = judge_all keep_time_s now m in (changed || modified, (addr, c') ∷ m')

-- `SchedulerMgr::UpdateLive`: the code, `modified` and the topic.
unfoldable pub update_live : RetCode × TopicConfig → TopicData → ℕ → RetCode × Bool × TopicData
update_live (ret, config) t now =
    if not (is_ok ret)
    then (ret, false, t)
    else let (modified, m) = judge_all config.scheduler_hash_keep_time_s now t.consumers in
      (ret_ok, modified, record t { consumers = m })

-- The live consumers and the sum of their loads.
unfoldable pub sum_live : Dict ℕ ConsumerInfo → ℕ × ℤ
sum_live [] = (0, pos 0)
sum_live ((addr, c) ∷ m) =
    let (nr_live, sum_load) = sum_live m in
    if c.live then (nr_live + 1, c.sticky_load +ℤ sum_load) else (nr_live, sum_load)

module _ (f db : Float) where
  -- `LoadInfo2Load`.
  unfoldable pub load_info_to_load : ℤ → ℤ → ℤ → ℤ
  load_info_to_load cpu proc_used_ratio load_use_proc_used_ratio =
      let x = db.div (db.of_int proc_used_ratio) (db.of_int (pos 100)) in
      db.to_int (
        db.mul (db.of_int cpu)
          (db.add (db.of_int (pos 1)) (db.mul x (db.of_int load_use_proc_used_ratio))))

  -- What `GetAddrScale` notes down of a consumer whose load is not to be skipped.
  unfoldable pub note_load : TopicConfig → ℤ → ℤ → ℕ → ConsumerInfo → ConsumerInfo
  note_load config cpu proc_used_ratio now c =
      let loads =
        update c.loads
          (load_info_to_load cpu proc_used_ratio config.scheduler_load_use_proc_used_ratio) in
      let new_load = f.to_int (mean f loads) in
      record c {
        last_active_time = now;
        loads = loads;
        sticky_load =
            if ltb_ℤ config.scheduler_load_sticky (pos (abs (new_load -ℤ c.sticky_load)))
              || not (ltb_ℤ (pos 0) c.sticky_load)
            then new_load
            else c.sticky_load;
      }

  -- `SchedulerMgr::GetMeanLoad`: the division is of integers.
  unfoldable pub get_mean_load : TopicData → RetCode × f.Value
  get_mean_load t =
      let (nr_live, sum_load) = sum_live t.consumers in
      if nr_live == 0
      then (ret_no_live_consumer, f.of_int (pos 0))
      else if not (ltb_ℤ (pos 0) sum_load)
      then (ret_err_logic, f.of_int (pos 0))
      else (ret_ok, f.of_int (sum_load /ℤ nr_live))

  -- `SchedulerMgr::IsConsumerImbalance`.
  unfoldable pub is_consumer_imbalance : TopicConfig → ℤ → f.Value → Bool
  is_consumer_imbalance config sticky_load mean_load =
      ltb_ℤ config.scheduler_max_load sticky_load
      && f.lt
          (f.div (f.mul mean_load (f.of_int config.scheduler_max_mean_load_percent))
            (f.of_int (pos 100)))
          (f.of_int sticky_load)

  -- The loop of `CheckImbalance`: `nr_live`, which it does not count, and `nr_balance`.
  unfoldable pub count_balance : TopicConfig → f.Value → Dict ℕ ConsumerInfo → ℕ × ℕ
  count_balance config mean_load [] = (0, 0)
  count_balance config mean_load ((addr, c) ∷ m) =
      let (nr_live, nr_balance) = count_balance config mean_load m in
      if not c.live
      then (nr_live, nr_balance)
      else if not (is_consumer_imbalance config c.sticky_load mean_load)
      then (nr_live, nr_balance + 1)
      else (nr_live, nr_balance)

  -- `SchedulerMgr::CheckImbalance`: the code and `balance`.
  unfoldable pub check_imbalance : RetCode × TopicConfig → TopicData → f.Value → RetCode × Bool
  check_imbalance (ret, config) t mean_load =
      if not (is_ok ret)
      then (ret, false)
      else let (nr_live, nr_balance) = count_balance config mean_load t.consumers in
        (ret_ok, nr_live == nr_balance)

  -- `SchedulerMgr::NextConsumerWeight`.
  unfoldable pub next_consumer_weight : TopicConfig → ℤ → f.Value → ℤ → ℤ
  next_consumer_weight config dynamic_load mean_load init_weight =
      if not (ltb_ℤ (pos 0) dynamic_load)
      then pos 0
      else let new_weight =
          f.to_int (f.div (f.mul (f.of_int init_weight) mean_load) (f.of_int dynamic_load)) in
        let most = (init_weight *ℤ config.scheduler_max_init_weight_percent) /ℤ 100 in
        if ltb_ℤ most new_weight then most else new_weight

  -- The weight that `AdjustScale` has in view for a consumer.
  unfoldable pub preview_weight : TopicConfig → f.Value → ConsumerInfo → ℤ
  preview_weight config mean_load c =
      if c.live
      then if eqb_ℤ config.scheduler_use_init_weight (pos 0)
        then next_consumer_weight config c.sticky_load mean_load c.init_weight
        else c.init_weight
      else pos 0

  -- `std::map::emplace`.
  unfoldable pub emplace : ℕ → ℤ → Dict ℕ ℤ → Dict ℕ ℤ
  emplace addr weight m = elim (lookup addr m) [ none ↦ insert addr weight m | some w ↦ m ]

  -- Its first loop: `consumer_addr2preview_map`.
  unfoldable pub preview : TopicConfig → f.Value → Dict ℕ ConsumerInfo → Dict ℕ ℤ → Dict ℕ ℤ
  preview config mean_load [] acc = acc
  preview config mean_load ((addr, c) ∷ m) acc =
      preview config mean_load m (emplace addr (preview_weight config mean_load c) acc)

  -- Its second loop: `nr_consumer` and `sum_diff`.
  unfoldable pub sum_changes : Dict ℕ ℤ → Dict ℕ ConsumerInfo → ℕ × ℕ
  sum_changes previews [] = (0, 0)
  sum_changes previews ((addr, c) ∷ m) =
      let (nr_consumer, sum_diff) = sum_changes previews m in
      elim (lookup addr previews) [
        | none ↦ (nr_consumer, sum_diff)
        | some w ↦ (nr_consumer + 1, abs (c.weight -ℤ w) + sum_diff)
      ]

  -- Its third loop.
  unfoldable pub apply_previews : Dict ℕ ℤ → Dict ℕ ConsumerInfo → Dict ℕ ConsumerInfo
  apply_previews previews [] = []
  apply_previews previews ((addr, c) ∷ m) =
      (addr, elim (lookup addr previews) [ none ↦ c | some w ↦ record c { weight = w } ])
      ∷ apply_previews previews m

  -- Whether the weights are worth the change.
  unfoldable pub is_worth : TopicConfig → ℕ × ℕ → Bool
  is_worth config (nr_consumer, sum_diff) =
      db.lt (db.mul (db.of_int (pos nr_consumer)) (db.of_int config.scheduler_weight_sticky))
        (db.of_int (pos sum_diff))

  -- `SchedulerMgr::AdjustScale`.
  unfoldable pub adjust_scale :
      RetCode × TopicConfig → TopicData → f.Value → Bool → RetCode × TopicData
  adjust_scale (ret, config) t mean_load force_apply =
      if not (is_ok ret)
      then (ret, t)
      else let previews = preview config mean_load t.consumers [] in
        let worth = is_worth config (sum_changes previews t.consumers) in
        if force_apply || worth
        then (ret_ok, record t { consumers = apply_previews previews t.consumers })
        else (ret_ok, t)
