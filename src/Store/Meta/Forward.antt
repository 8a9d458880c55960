-- ===== src/Store/Meta/Forward.antt =====
-- The last cursor handed out, which the checksums continue from, under the calls on a queue.
use phxqueue.Common.{
  ℕ, ◌<◌, ◌≤◌, some, ◌≡◌, ◌≢◌, refl, inl, inr, List, [], ◌∷◌, arith, ◌==◌, Bool-cases, Option-cases,
}
use phxqueue.Store.Meta.{
  StoreMeta, StoreMetaQueue, no_cursor, meta_of, upper_bound, lower_bound, first, next, next_at,
  advance, push_back, erase_front_till, erase_front_until, update_dequeue_stat, clear,
}
use phxqueue.Store.Meta.Order.{IsAscending, upper_bound-IsAscending, lower_bound-IsAscending}
use phxqueue.Store.Meta.Chain.{
  Call, step, pushes, nexts, erases_till, erases_until, updates, clears, clears_stat,
}

-- From no cursor, which is `-1`, to any; from a cursor to itself or a later one, and not to `-1`.
abbrev pub NotAfter : StoreMeta → StoreMeta → Type 0
NotAfter m n = m.cursor_id ≢ no_cursor → (n.cursor_id ≢ no_cursor) × (m.cursor_id ≤ n.cursor_id)

NotAfter-refl : (m : StoreMeta) → NotAfter m m
NotAfter-refl m h = (h, omega arith)

advance-NotAfter : (old m : StoreMeta) → m.cursor_id < no_cursor → NotAfter old (advance old m)
unfolding advance
advance-NotAfter old m real h = (ground arith, ground arith)

next_at-NotAfter :
    (crc32 : ℕ → ℕ → ℕ) (xs : List StoreMeta) (q : StoreMetaQueue)
    → IsAscending xs
    → NotAfter q.last_dequeue_meta (next_at crc32 xs q).1.last_dequeue_meta
unfolding next_at
next_at-NotAfter crc32 [] q asc = NotAfter-refl q.last_dequeue_meta
next_at-NotAfter crc32 (x ∷ xs) q asc = advance-NotAfter q.last_dequeue_meta x asc.0

push_back-same :
    (crc32 : ℕ → ℕ → ℕ) (q : StoreMetaQueue) (m : StoreMeta)
    → (push_back crc32 q m).1.last_dequeue_meta ≡ q.last_dequeue_meta
unfolding push_back
push_back-same crc32 q m = ground arith

first-real :
    (xs : List StoreMeta) (x : StoreMeta)
    → IsAscending xs
    → first xs ≡ some x
    → x.cursor_id < no_cursor
unfolding first
first-real [] x asc h = cc
first-real (y ∷ ys) x asc h = ground (arith, h)

update_dequeue_stat-NotAfter :
    (q : StoreMetaQueue) (m : StoreMeta)
    → IsAscending q.metas
    → NotAfter q.last_dequeue_meta (update_dequeue_stat q m).last_dequeue_meta
unfolding update_dequeue_stat
update_dequeue_stat-NotAfter q m asc = elim (Bool-cases (m.cursor_id == no_cursor)) [
  | inl e ↦ rw e (NotAfter-refl q.last_dequeue_meta)
  | inr e ↦ elim (Option-cases (first (lower_bound m q.metas))) [
    | inl end ↦ rw (e, end) (NotAfter-refl q.last_dequeue_meta)
    | inr (x, found) ↦
        rw (e, found)
          (advance-NotAfter q.last_dequeue_meta x
            (first-real (lower_bound m q.metas) x (lower_bound-IsAscending m q.metas asc) found))
  ]
]

-- On a queue whose cursors ascend, every call but ClearDequeueStat leaves the last cursor handed out, if
-- there is one, where it is or moves it to a later cursor, and never back to -1.
pub step-NotAfter :
    (crc32 : ℕ → ℕ → ℕ) (q : StoreMetaQueue) (c : Call crc32)
    → IsAscending q.metas
    → c ≢ clears_stat
    → NotAfter q.last_dequeue_meta (step crc32 q c).last_dequeue_meta
unfolding step next clear erase_front_till erase_front_until
step-NotAfter crc32 q (pushes c) asc h =
    rw (push_back-same crc32 q (meta_of c)) (NotAfter-refl q.last_dequeue_meta)
step-NotAfter crc32 q (nexts c) asc h = elim (Bool-cases (c == no_cursor)) [
  | inl e ↦ rw (e, step) (next_at-NotAfter crc32 q.metas q asc)
  | inr e ↦
      rw (e, step)
        (next_at-NotAfter crc32 (upper_bound (meta_of c) q.metas) q
          (upper_bound-IsAscending (meta_of c) q.metas asc))
]
step-NotAfter crc32 q (erases_till c) asc h = λ r. (ground arith, ground arith)
step-NotAfter crc32 q (erases_until c) asc h = λ r. (ground arith, ground arith)
step-NotAfter crc32 q (updates c) asc h = update_dequeue_stat-NotAfter q (meta_of c) asc
step-NotAfter crc32 q clears asc h = NotAfter-refl q.last_dequeue_meta
step-NotAfter crc32 q clears_stat asc h = absurd (h refl)
