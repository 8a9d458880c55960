-- ===== src/Store/Sync/Tests.antt =====
-- Runs of the cursor file, and its theorems at concrete inputs.
use phxqueue.Common.{◌≡◌, refl, true, false, [], ◌∷◌, arith}
use phxqueue.Common.Int.{pos, negsuc}
use phxqueue.Common.RetCode.{ret_ok, ret_err_arg}
use phxqueue.Store.Sync.{
  SyncCtrl, blank, bad_ids, get_idx, item_at, update_cursor_id, get_cursor_id,
  adjust_next_cursor_id, adjust_item, is_stale, catch_up,
}
use phxqueue.Store.Sync.Slots.{
  InRange, IsSized, get-update_self, get-update_other, negative_group_aliases,
}
use phxqueue.Store.Sync.Adjust.{Adjusts, adjust_next_cursor_id-Adjusts}

-- Two queues and two consumer groups; group 1 of queue 1 has acknowledged 7 and been given up to 9.
abbrev file : SyncCtrl
file = record {
  nconsumer_group = 2;
  nqueue = 2;
  buf =
      blank
      ∷ blank
      ∷ record {
        prev_magic = 9_980_256;
        next_magic = 9_980_256;
        prev_cursor_id = 7;
        next_cursor_id = 9;
      }
      ∷ blank
      ∷ [];
}

-- A consumer that has lost its place goes back to what it acknowledged.
rewinds : adjust_next_cursor_id file (pos 1) (pos 1) 9 12 ≡ (ret_ok, 7, 7)
unfolding adjust_next_cursor_id bad_ids item_at get_idx adjust_item is_stale catch_up
rewinds = refl

goes_on : adjust_next_cursor_id file (pos 1) (pos 1) 8 9 ≡ (ret_ok, 8, 9)
unfolding adjust_next_cursor_id bad_ids item_at get_idx adjust_item is_stale catch_up
goes_on = refl

group_zero_refused :
    get_cursor_id file (pos 0) (pos 1) true ≡ (ret_err_arg, 18_446_744_073_709_551_615)
unfolding get_cursor_id bad_ids
group_zero_refused = refl

get-update_self_example :
    let (ret, s') = update_cursor_id file (pos 2) (pos 0) 5 true in
    (ret ≡ ret_ok) × IsSized s' × (get_cursor_id s' (pos 2) (pos 0) true ≡ (ret_ok, 5))
get-update_self_example = get-update_self file 2 0 5 true refl (omega arith)

get-update_other_example :
    get_cursor_id (update_cursor_id file (pos 2) (pos 0) 5 true).1 (pos 1) (pos 1) false
    ≡ get_cursor_id file (pos 1) (pos 1) false
get-update_other_example =
    get-update_other file 2 0 1 1 5 true false refl (omega arith) (omega arith) (λ e. omega arith)

adjust_next_cursor_id-Adjusts_example :
    Adjusts (item_at file (pos 1) (pos 1)) 9 12 (adjust_next_cursor_id file (pos 1) (pos 1) 9 12)
adjust_next_cursor_id-Adjusts_example = adjust_next_cursor_id-Adjusts file 1 1 9 12 (omega arith)

negative_group_aliases_example :
    (bad_ids file (negsuc 0) (pos 1) ≡ false)
    × InRange file 1 0
    × (get_idx 2 (negsuc 0) (pos 1) ≡ get_idx 2 (pos 1) (pos 0))
negative_group_aliases_example = negative_group_aliases file 0 0 (omega arith) (omega arith)
