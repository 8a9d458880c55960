-- ===== src/Scheduler/Float.antt =====
-- `float` and `double`: the operations that the scheduler makes, of whose rounding nothing is said.
use phxqueue.Common.{Bool}
use phxqueue.Common.Int.{ℤ}

pub record Float : Type 1 where
  pub Value : Type 0
  pub of_int : ℤ → Value
  pub add : Value → Value → Value
  pub mul : Value → Value → Value
  pub div : Value → Value → Value
  pub lt : Value → Value → Bool
  -- A cast to `int`.
  pub to_int : Value → ℤ
