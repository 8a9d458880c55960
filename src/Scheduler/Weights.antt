-- ===== src/Scheduler/Weights.antt =====
-- What AdjustScale makes of the weights.
use phxqueue.Common.{ℕ, ◌+◌, Option, none, some, [], ◌∷◌}
use phxqueue.Common.Int.{ℤ, abs, ◌-ℤ◌}
use phxqueue.Common.Key.{nat_key}
use phxqueue.Common.Dict.{Dict}
use phxqueue.Scheduler.Float.{Float}
use phxqueue.Scheduler.Topic.{ConsumerInfo, TopicConfig}
use phxqueue.Scheduler.Balance.{preview_weight}

module _ (f db : Float) where
  -- The weight that is in view for the consumer under a key.
  abbrev pub in_view : TopicConfig → f.Value → Option ConsumerInfo → Option ℤ
  in_view config mean_load none = none
  in_view config mean_load (some c) = some (preview_weight f db config mean_load c)

  -- The consumer with the weight that is in view for it.
  abbrev pub reweighed : TopicConfig → f.Value → Option ConsumerInfo → Option ConsumerInfo
  reweighed config mean_load none = none
  reweighed config mean_load (some c) =
      some (record c { weight = preview_weight f db config mean_load c })

  -- By how much the weights would change, all in all.
  abbrev pub total_change : TopicConfig → f.Value → Dict ℕ ConsumerInfo → ℕ
  total_change config mean_load [] = 0
  total_change config mean_load ((addr, c) ∷ m) =
      abs (c.weight -ℤ preview_weight f db config mean_load c) + total_change config mean_load m
