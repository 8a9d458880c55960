-- ===== src/Scheduler/Load.antt =====
-- The mean load of the live consumers: `GetMeanLoad`.
use phxqueue.Common.{ℕ, ◌≡◌, true, false}
use phxqueue.Common.Int.{pos, ◌≤ℤ◌}
use phxqueue.Common.Dict.{Dict}
use phxqueue.Scheduler.Float.{Float}
use phxqueue.Scheduler.Topic.{ConsumerInfo}

-- The load of a consumer that is live lies in the range.
abbrev pub IsLoaded : ℕ → ℕ → ℕ × ConsumerInfo → Type 0
IsLoaded lo hi (addr, c) = c.live ≡ true → (pos lo ≤ℤ c.sticky_load) × (c.sticky_load ≤ℤ pos hi)

abbrev pub IsDead : ℕ × ConsumerInfo → Type 0
IsDead (addr, c) = c.live ≡ false
