-- ===== src/Scheduler/Topic.antt =====
-- phxqueue/scheduler/schedulermgr.h: what the scheduler knows of a topic and of its consumers. A
-- signed `int` is an integer, since its overflow has no meaning in C++.
use phxqueue.Common.{
  ℕ, zero, suc, ◌+◌, ◌%◌, ◌^◌, Bool, false, ◌||◌, List, [], ◌∷◌, ltb, ◌==◌, if◌then◌else◌, length,
  set,
}
use phxqueue.Common.Int.{ℤ, pos, ◌+ℤ◌}
use phxqueue.Common.Key.{Bytes}
use phxqueue.Common.Dict.{Dict}
use phxqueue.Scheduler.Float.{Float}

-- `MeanVector`: the last values, in a ring.
pub record MeanVector : Type 0 where
  pub cursor : ℕ
  pub vector : List ℤ

abbrev pub six_zeros : List ℤ
six_zeros = pos 0 ∷ pos 0 ∷ pos 0 ∷ pos 0 ∷ pos 0 ∷ pos 0 ∷ []

-- `MeanVector::Update`; the cursor is an `uint32_t`.
unfoldable pub update : MeanVector → ℤ → MeanVector
update v value = if length v.vector == 0 then v else record {
  cursor = (v.cursor + 1) % 2 ^ 32;
  vector = set v.vector (v.cursor % length v.vector) value;
}

-- The sum of the first values.
unfoldable pub sum_first : ℕ → List ℤ → ℤ
sum_first zero xs = pos 0
sum_first (suc n) [] = pos 0
sum_first (suc n) (x ∷ xs) = x +ℤ sum_first n xs

-- `MeanVector::Mean`.
unfoldable pub mean : (f : Float) → MeanVector → f.Value
mean f v =
    let size = length v.vector in
    if size == 0 || v.cursor == 0
    then f.of_int (pos 0)
    else let all = if ltb v.cursor size then v.cursor else size in
      f.div (f.of_int (sum_first all v.vector)) (f.of_int (pos all))

-- `MeanVector::Reset`.
unfoldable pub reset_loads : MeanVector → MeanVector
reset_loads v = record v { cursor = 0 }

pub record ConsumerInfo : Type 0 where
  pub weight : ℤ
  pub loads : MeanVector
  pub sticky_load : ℤ
  pub init_weight : ℤ
  pub live : Bool
  pub last_active_time : ℕ

-- `ConsumerInfo()`.
abbrev pub new_consumer : ConsumerInfo
new_consumer = record {
  weight = pos 0;
  loads = record { cursor = 0; vector = six_zeros };
  sticky_load = pos 0;
  init_weight = pos 0;
  live = false;
  last_active_time = 0;
}

-- `ConsumerInfo::Reset`.
unfoldable pub reset : ConsumerInfo → ConsumerInfo
reset c = record c { weight = pos 0; loads = reset_loads c.loads; sticky_load = pos 0 }

-- `TopicData`; a consumer goes by the code of its address.
pub record TopicData : Type 0 where
  pub consumers : Dict ℕ ConsumerInfo
  pub conf_last_mod_time : ℕ
  pub init_time : ℕ

-- What the scheduler reads of `config::proto::Topic`. Intervals in seconds are not negative.
pub record TopicConfig : Type 0 where
  pub scheduler_get_scale_interval_s : ℕ
  pub scheduler_max_load : ℤ
  pub scheduler_max_mean_load_percent : ℤ
  pub scheduler_max_init_weight_percent : ℤ
  pub scheduler_load_sticky : ℤ
  pub scheduler_weight_sticky : ℤ
  pub scheduler_hash_keep_time_s : ℕ
  pub scheduler_master_ip : Bytes
  pub scheduler_master_port : ℤ
  pub scheduler_load_use_proc_used_ratio : ℤ
  pub scheduler_use_init_weight : ℤ

-- A 64-bit time and a number of milliseconds.
abbrev pub ms_after : ℕ → ℕ → ℕ
ms_after time ms = (time + ms) % 2 ^ 64
