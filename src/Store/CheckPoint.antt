-- ===== src/Store/CheckPoint.antt =====
-- phxqueue/store/checkpointstat.cpp: the checkpoint that a group keeps in a mapped file. Whether
-- `msync` succeeds is an argument; the write is seen in the mapping in any case.
use phxqueue.Common.{ℕ, Bool, Option, List, ◌==◌, if◌then◌else◌, get_elem?}
use phxqueue.Common.RetCode.{RetCode, ret_ok, ret_err_sys}
use phxqueue.Store.Meta.{no_cursor}

-- CHECKPOINTSTAT_MAGIC.
abbrev pub checkpoint_magic : ℕ
checkpoint_magic = 9_970_256

pub record CheckPointStat : Type 0 where
  pub magic : ℕ
  pub cp : ℕ

-- `CheckPointStat::GetCheckPoint`.
pub get_check_point : CheckPointStat → RetCode × ℕ
get_check_point s = (ret_ok, if s.magic == checkpoint_magic then s.cp else no_cursor)

-- `CheckPointStat::UpdateCheckPointAndFlush`.
pub update_check_point_and_flush : CheckPointStat → ℕ → Bool → RetCode × CheckPointStat
update_check_point_and_flush s cp flushed =
    (if flushed then ret_ok else ret_err_sys, record { magic = checkpoint_magic; cp = cp })

-- `CheckPointStatMgr::GetCheckPointStat`: none for a group that is out of range.
pub get_check_point_stat : List CheckPointStat → ℕ → Option CheckPointStat
get_check_point_stat stats group = get_elem? stats group
