-- ===== src/Store/Meta/Tests.antt =====
-- Runs of the queue of cursors, and its theorems at concrete inputs.
use phxqueue.Common.{◌^◌, ◌-◌, ◌<◌, ◌≤◌, ℕ, ◌+◌, ◌*◌, ◌≡◌, refl, inl, List, [], ◌∷◌, arith, length}
use phxqueue.Common.Int.{pos, negsuc}
use phxqueue.Store.Meta.{
  StoreMetaQueue, empty_meta, meta_of, empty_queue, upper_bound, last, first, insert_meta, next,
  push_back, pushed, pushed_first, size, size_gt, erase_front_till, erase_front_until,
}
use phxqueue.Store.Meta.Order.{Pushes, push_back-Pushes}
use phxqueue.Store.Meta.Erase.{keep, beyond, from, handed, erase_front-keep, next-handed}
use phxqueue.Store.Meta.Chain.{IsValid, Call, step, run, pushes, nexts, run-IsValid}
use phxqueue.Store.Meta.Count.{size_gt-length}
use phxqueue.Store.Meta.Drain.{passing, drain, drain-all, drain-beyond}
use phxqueue.Store.Meta.Forward.{NotAfter, step-NotAfter}

-- A stand-in for zlib's checksum.
abbrev toy_crc : ℕ → ℕ → ℕ
toy_crc pre c = pre * 31 + c

abbrev history : List (Call toy_crc)
history = pushes 5 ∷ pushes 9 ∷ pushes 9 ∷ pushes 20 ∷ []

-- The repeated cursor is refused.
run-history :
    (run toy_crc empty_queue history).metas
    ≡ record { cursor_id = 5; index = 0; crc = 5 }
      ∷ record { cursor_id = 9; index = 1; crc = 164 }
      ∷ record { cursor_id = 20; index = 2; crc = 5104 }
      ∷ []
unfolding run step push_back pushed pushed_first insert_meta last
run-history = refl

abbrev three : StoreMetaQueue
three = record {
  metas =
      record { cursor_id = 5; index = 0; crc = 5 }
      ∷ record { cursor_id = 9; index = 1; crc = 164 }
      ∷ record { cursor_id = 20; index = 2; crc = 5104 }
      ∷ [];
  last_dequeue_meta = empty_meta;
}

three-IsValid : IsValid toy_crc three
three-IsValid = record { ascending = omega arith; linked = omega arith }

push_back-Pushes_example : Pushes three (meta_of 21) (push_back toy_crc three (meta_of 21))
push_back-Pushes_example = push_back-Pushes toy_crc three (meta_of 21) three-IsValid.ascending

erase_front-keep_example :
    (erase_front_till three (meta_of 9) ≡ record three { metas = keep (beyond 9) three.metas })
    × (erase_front_until three (meta_of 9) ≡ record three { metas = keep (from 9) three.metas })
erase_front-keep_example = erase_front-keep three (meta_of 9) three-IsValid.ascending (omega arith)

next-handed_example :
    (handed (next toy_crc three (meta_of 6)) ≡ first (keep (beyond 6) three.metas))
    × ((next toy_crc three (meta_of 6)).1.metas ≡ three.metas)
next-handed_example = next-handed toy_crc three (meta_of 6) three-IsValid.ascending

run-IsValid_example : IsValid toy_crc (run toy_crc empty_queue history)
run-IsValid_example = run-IsValid toy_crc history (omega arith)

size_gt-length_example :
    let n = length (keep (beyond 5) three.metas) in
    (n < 2 ^ 31 → size_gt three (meta_of 5) ≡ pos n)
    × (2 ^ 31 ≤ n → size_gt three (meta_of 5) ≡ negsuc (2 ^ 32 - n - 1))
    × (3 < 2 ^ 31 → size three ≡ pos 3)
size_gt-length_example = size_gt-length toy_crc three (meta_of 5) three-IsValid (omega arith)

drain-all_example : drain toy_crc 4 three empty_meta ≡ passing three.metas
drain-all_example = drain-all toy_crc 4 three three-IsValid refl (omega arith)

drain-beyond_example : drain toy_crc 3 three (meta_of 5) ≡ passing (keep (beyond 5) three.metas)
unfolding upper_bound
drain-beyond_example =
    drain-beyond toy_crc 3 three (meta_of 5) three-IsValid (omega arith) (inl refl) (omega arith)

step-NotAfter_example :
    NotAfter three.last_dequeue_meta (step toy_crc three (nexts 5)).last_dequeue_meta
step-NotAfter_example = step-NotAfter toy_crc three (nexts 5) (omega arith) (λ e. cc)
