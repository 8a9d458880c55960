-- ===== src/Scheduler/Live.antt =====
-- Who is live and who is balanced: `UpdateLive` and `CheckImbalance`.
use phxqueue.Common.{
  ℕ, ◌*◌, ◌≡◌, refl, true, ◌&&◌, not, ◌↔◌, inl, inr, Option, none, some, [], ◌∷◌, arith, ltb,
  if◌then◌else◌, Bool-cases, All,
}
use phxqueue.Common.RetCode.{ret_ok}
use phxqueue.Common.Int.{pos}
use phxqueue.Common.Key.{nat_key}
use phxqueue.Common.Dict.{Dict}
use phxqueue.Scheduler.Float.{Float}
use phxqueue.Scheduler.Topic.{ConsumerInfo, TopicData, TopicConfig, ms_after}
use phxqueue.Scheduler.Balance.{is_consumer_imbalance, count_balance, check_imbalance}

-- What becomes of a consumer: it is live exactly until its deadline, and when it dies it forgets its
-- weight and its loads.
abbrev pub Judged : ℕ → ℕ → Option ConsumerInfo → Option ConsumerInfo → Type 0
Judged keep now none none = Unit {0}
Judged keep now none (some c') = ⊥
Judged keep now (some c) none = ⊥
Judged keep now (some c) (some c') =
    (c'.live ≡ ltb now (ms_after c.last_active_time (keep * 1000)))
    × (c'.init_weight ≡ c.init_weight)
    × (c'.last_active_time ≡ c.last_active_time)
    × (if c.live && not c'.live
        then (c'.weight ≡ pos 0) × (c'.sticky_load ≡ pos 0) × (c'.loads.cursor ≡ 0)
        else (c'.weight ≡ c.weight) × (c'.sticky_load ≡ c.sticky_load) × (c'.loads ≡ c.loads))

module _ (f db : Float) where
  -- A consumer that is live has too much to do.
  abbrev pub IsOverloaded : TopicConfig → f.Value → ℕ × ConsumerInfo → Type 0
  IsOverloaded config mean_load (addr, c) =
      c.live ≡ true → is_consumer_imbalance f db config c.sticky_load mean_load ≡ true

  count_balance_none :
      (config : TopicConfig) (mean_load : f.Value) (m : Dict ℕ ConsumerInfo)
      → let (nr_live, nr_balance) = count_balance f db config mean_load m in
        (nr_live ≡ 0)
        × (nr_balance ≡ 0 → All (IsOverloaded config mean_load) m)
        × (All (IsOverloaded config mean_load) m → nr_balance ≡ 0)
  unfolding count_balance
  count_balance_none config mean_load [] = (refl, λ e. tt, λ e. refl)
  count_balance_none config mean_load ((addr, c) ∷ m) =
      let (z, to, fro) = count_balance_none config mean_load m in
      elim (Bool-cases c.live) [
        | inr off ↦ rw off (z, λ e. (λ on. ground (arith, on, off), to e), λ h. fro h.1)
        | inl on ↦ elim (Bool-cases (is_consumer_imbalance f db config c.sticky_load mean_load)) [
          | inl over ↦ rw (on, over) (z, λ e. (λ o. refl, to e), λ h. fro h.1)
          | inr fine ↦
              rw (on, fine) (z, λ e. absurd (omega (arith, e)), λ h. ground (arith, h.0 refl))
        ]
      ]

  -- CheckImbalance, which is to say whether the load is balanced, says so exactly if every live consumer
  -- has too much to do, or none is live: it counts those that are balanced, and compares their number
  -- with a number of live consumers that it never counts.
  pub check_imbalance-inverted :
      (config : TopicConfig) (t : TopicData) (mean_load : f.Value)
      → (check_imbalance f db (ret_ok, config) t mean_load).1 ≡ true
        ↔ All (IsOverloaded config mean_load) t.consumers
  unfolding check_imbalance
  check_imbalance-inverted config t mean_load =
      let (z, to, fro) = count_balance_none config mean_load t.consumers in
      (λ h. to (ground (arith, h, z)), λ h. ground (arith, z, fro h))
