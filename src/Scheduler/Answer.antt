-- ===== src/Scheduler/Answer.antt =====
-- What a consumer is answered: `GetAddrScale`.
use phxqueue.Common.{
  ℕ, ◌≡◌, ◌≢◌, refl, sym, subst, ap, ◌∙◌, Bool, true, false, ◌⊎◌, not, inl, inr, Option, none, some, List, [], ◌∷◌, arith,
  ◌==◌, ==_iff, if◌then◌else◌, Bool-cases, Option-cases,
}
use phxqueue.Common.RetCode.{RetCode, ret_ok, is_ok, ret_err_not_master, ret_err_range_topic, ret_err_logic, ret_err_range_consumer}
use phxqueue.Common.Int.{ℤ, pos, negsuc, eqb_ℤ_iff}
use phxqueue.Common.Key.{nat_key, int_key}
use phxqueue.Common.Dict.{Dict, lookup, insert, lookup-insert, lookup-insert_self}
use phxqueue.Scheduler.Float.{Float}
use phxqueue.Scheduler.Topic.{ConsumerInfo, TopicData, TopicConfig}
use phxqueue.Scheduler.Balance.{note_load}
use phxqueue.Scheduler.Reload.{SchedulerMgr, is_elem}
use phxqueue.Scheduler.Manager.{build_topic_scale_response, GetAddrScaleRequest, get_addr_scale}

abbrev pub weight_of : Option ConsumerInfo → Option ℤ
weight_of none = none
weight_of (some c) = some c.weight

lookup-build :
    (k : ℕ) (m : Dict ℕ ConsumerInfo) → lookup k (build_topic_scale_response m) ≡ weight_of (lookup k m)
unfolding build_topic_scale_response
lookup-build k [] = refl
lookup-build k ((addr, c) ∷ m) = ground (arith, lookup-build k m)

module _ (f db : Float) where
  note_load_keeps :
      (config : TopicConfig) (cpu ratio : ℤ) (now : ℕ) (c : ConsumerInfo)
      → let c' = note_load f db config cpu ratio now c in
        (c'.weight ≡ c.weight) × (c'.live ≡ c.live) × (c'.init_weight ≡ c.init_weight) × (c'.last_active_time ≡ now)
  unfolding note_load
  note_load_keeps config cpu ratio now c = (refl, refl, refl, refl)

  -- The consumer after its request: seen now, unless its load is to be skipped, and with the same
  -- weight.
  abbrev pub Noted : Bool → ℕ → ConsumerInfo → ConsumerInfo → Type 0
  Noted skip now c c' =
      (c'.last_active_time ≡ (if skip then c.last_active_time else now))
      × (c'.weight ≡ c.weight)
      × (c'.live ≡ c.live)
      × (c'.init_weight ≡ c.init_weight)

  -- A request that is answered: of a consumer `c` of the topic `t`.
  abbrev pub Answered :
      Bool → ℕ → SchedulerMgr → GetAddrScaleRequest → List (ℕ × ℤ) → SchedulerMgr → Type 0
  Answered skip now s req scales s' =
      (t t' : TopicData) × (c c' : ConsumerInfo)
      × (lookup req.topic_id s.topics ≡ some t)
      × (lookup req.topic_id s'.topics ≡ some t')
      × (lookup req.addr t.consumers ≡ some c)
      × (lookup req.addr t'.consumers ≡ some c')
      × Noted skip now c c'
      × ((k : ℕ) → k ≢ req.addr → lookup k t'.consumers ≡ lookup k t.consumers)
      × ((k : ℕ) → lookup k scales ≡ weight_of (lookup k t.consumers))

  served :
      (skip : Bool) (now : ℕ) (s : SchedulerMgr) (req : GetAddrScaleRequest) (config : TopicConfig)
      (t : TopicData) (c : ConsumerInfo)
      → lookup req.topic_id s.topics ≡ some t
      → lookup req.addr t.consumers ≡ some c
      → let t' = if skip then t else record t {
          consumers =
              insert req.addr (note_load f db config req.cpu req.proc_used_ratio now c) t.consumers;
        } in
        Answered skip now s req (build_topic_scale_response t'.consumers)
          (record s { topics = insert req.topic_id t' s.topics })
  served true now s req config t c at found = (
    t,
    t,
    c,
    c,
    at,
    lookup-insert_self req.topic_id t s.topics,
    found,
    found,
    (refl, refl, refl, refl),
    λ k ne. refl,
    λ k. lookup-build k t.consumers,
  )
  served false now s req config t c at found =
      let c' = note_load f db config req.cpu req.proc_used_ratio now c in
      let t' = record t { consumers = insert req.addr c' t.consumers } in
      let (weight, live, init, seen) = note_load_keeps config req.cpu req.proc_used_ratio now c in
      (
        t,
        t',
        c,
        c',
        at,
        lookup-insert_self req.topic_id t' s.topics,
        found,
        lookup-insert_self req.addr c' t.consumers,
        (seen, weight, live, init),
        λ k ne. ground (arith, lookup-insert k req.addr c' t.consumers, ==_iff k req.addr),
        λ k. lookup-build k t'.consumers
            ∙ ground (arith, lookup-insert k req.addr c' t.consumers, ==_iff k req.addr, weight, found),
      )

  -- The topic after the request of its consumer `c`.
  abbrev noted_topic :
      Bool → (ℤ → RetCode × TopicConfig) → ℕ → GetAddrScaleRequest → TopicData → ConsumerInfo → TopicData
  noted_topic skip configs now req t c = if skip then t else record t {
    consumers =
        insert req.addr
          (note_load f db (configs req.topic_id).1 req.cpu req.proc_used_ratio now c) t.consumers;
  }

  get_addr_scale-found :
      (master skip : Bool) (configs : ℤ → RetCode × TopicConfig) (now : ℕ) (s : SchedulerMgr)
      (req : GetAddrScaleRequest) (t : TopicData) (c : ConsumerInfo)
      → master ≡ true
      → lookup req.topic_id s.topics ≡ some t
      → is_ok (configs req.topic_id).0 ≡ true
      → is_elem req.topic_id s.locks ≡ true
      → lookup req.addr t.consumers ≡ some c
      → let t' = noted_topic skip configs now req t c in
        get_addr_scale f db master configs skip now s req ≡ (
          ret_ok,
          build_topic_scale_response t'.consumers,
          record s { topics = insert req.topic_id t' s.topics },
        )
  unfolding get_addr_scale
  get_addr_scale-found master skip configs now s req t c ours at good locked found = rw (ours, at, good, locked, found) refl

  abbrev pub Outcome :
      Bool → Bool → ℕ → SchedulerMgr → GetAddrScaleRequest
      → RetCode × List (ℕ × ℤ) × SchedulerMgr → Type 0
  Outcome master skip now s req (ret, scales, s') =
      ((ret ≡ ret_ok) × (master ≡ true) × Answered skip now s req scales s')
      ⊎ ((ret ≢ ret_ok) × (scales ≡ []) × (s' ≡ s))

  -- GetAddrScale answers RET_OK only as the master and for a consumer of a topic that it knows. Then the
  -- answer has, for every consumer of the topic, the weight that it has before and after; and of the
  -- consumer that asks it is noted that it was seen now, unless its load is to be skipped, while the
  -- other consumers stay as they are. In every other case the answer is empty and nothing changes.
  pub get_addr_scale-Answered :
      (master skip : Bool) (configs : ℤ → RetCode × TopicConfig) (now : ℕ) (s : SchedulerMgr)
      (req : GetAddrScaleRequest)
      → Outcome master skip now s req (get_addr_scale f db master configs skip now s req)
  unfolding get_addr_scale
  get_addr_scale-Answered master skip configs now s req = elim (Bool-cases master) [
    | inr other ↦ rw other (inr (ground arith, refl, refl))
    | inl ours ↦ elim (Option-cases (lookup req.topic_id s.topics)) [
      | inl e ↦ rw (ours, e) (inr (ground arith, refl, refl))
      | inr (t, at) ↦ elim (Bool-cases (is_ok (configs req.topic_id).0)) [
        | inr bad ↦ rw (ours, at, bad) (inr (λ e. ground (arith, bad, e), refl, refl))
        | inl good ↦ elim (Bool-cases (is_elem req.topic_id s.locks)) [
          | inr lost ↦ rw (ours, at, good, lost) (inr (ground arith, refl, refl))
          | inl locked ↦ elim (Option-cases (lookup req.addr t.consumers)) [
            | inl e ↦ rw (ours, at, good, locked, e) (inr (ground arith, refl, refl))
            | inr (c, found) ↦
                subst (Outcome master skip now s req)
                  (sym (get_addr_scale-found master skip configs now s req t c ours at good locked found))
                  (inl (refl, ours, served skip now s req (configs req.topic_id).1 t c at found))
          ]
        ]
      ]
    ]
  ]
