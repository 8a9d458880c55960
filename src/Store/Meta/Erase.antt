-- ===== src/Store/Meta/Erase.antt =====
-- The bounds of the set against a walk over all of it: the erasures and `Next`.
use phxqueue.Common.{
  ℕ, ◌≤◌, ◌≡◌, refl, ◌≢◌, Bool, inl, inr, Option, none, some, List, [], ◌∷◌, arith, ltb, leb, ◌==◌,
  if◌then◌else◌, Bool-cases,
}
use phxqueue.Store.Meta.{
  StoreMeta, StoreMetaQueue, no_cursor, upper_bound, lower_bound, first, next, next_at,
  erase_front_till, erase_front_until,
}
use phxqueue.Store.Meta.Order.{Ascends, IsAscending, tail-IsAscending}

-- The elements that pass a test, by a walk over the whole list.
abbrev pub keep : (StoreMeta → Bool) → List StoreMeta → List StoreMeta
keep p [] = []
keep p (x ∷ xs) = if p x then x ∷ keep p xs else keep p xs

abbrev pub beyond : ℕ → StoreMeta → Bool
beyond c x = ltb c x.cursor_id

abbrev pub from : ℕ → StoreMeta → Bool
from c x = leb c x.cursor_id

keep-all : (c d : ℕ) (xs : List StoreMeta) → c ≤ d → Ascends d xs → keep (beyond c) xs ≡ xs
keep-all c d [] le h = refl
keep-all c d (x ∷ xs) le h = ground (arith, keep-all c x.cursor_id xs)

keep-all_from : (c d : ℕ) (xs : List StoreMeta) → c ≤ d → Ascends d xs → keep (from c) xs ≡ xs
keep-all_from c d [] le h = refl
keep-all_from c d (x ∷ xs) le h = ground (arith, keep-all_from c x.cursor_id xs)

pub upper_bound-keep :
    (m : StoreMeta) (xs : List StoreMeta)
    → IsAscending xs
    → upper_bound m xs ≡ keep (beyond m.cursor_id) xs
unfolding upper_bound
upper_bound-keep m [] h = refl
upper_bound-keep m (x ∷ xs) h =
    ground
      (arith, upper_bound-keep m xs (tail-IsAscending x xs h), keep-all m.cursor_id x.cursor_id xs)

pub lower_bound-keep :
    (m : StoreMeta) (xs : List StoreMeta)
    → IsAscending xs
    → lower_bound m xs ≡ keep (from m.cursor_id) xs
unfolding lower_bound
lower_bound-keep m [] h = refl
lower_bound-keep m (x ∷ xs) h = ground (
  arith,
  lower_bound-keep m xs (tail-IsAscending x xs h),
  keep-all_from m.cursor_id x.cursor_id xs,
)

-- For a real cursor EraseFrontTill keeps exactly the cursors beyond it and EraseFrontUntill exactly
-- those from it on, in their order; neither touches the last cursor handed out.
pub erase_front-keep :
    (q : StoreMetaQueue) (m : StoreMeta)
    → IsAscending q.metas
    → m.cursor_id ≢ no_cursor
    → (erase_front_till q m ≡ record q { metas = keep (beyond m.cursor_id) q.metas })
      × (erase_front_until q m ≡ record q { metas = keep (from m.cursor_id) q.metas })
unfolding erase_front_till erase_front_until
erase_front-keep q m h real =
    (ground (arith, upper_bound-keep m q.metas h), ground (arith, lower_bound-keep m q.metas h))

-- The element that a `Next` hands out.
abbrev pub handed : Option (StoreMeta × Bool) × StoreMetaQueue → Option StoreMeta
handed (none, q) = none
handed (some (x, ok), q) = some x

next_at-handed :
    (crc32 : ℕ → ℕ → ℕ) (xs : List StoreMeta) (q : StoreMetaQueue)
    → (handed (next_at crc32 xs q) ≡ first xs) × ((next_at crc32 xs q).1.metas ≡ q.metas)
unfolding next_at first
next_at-handed crc32 [] q = (refl, refl)
next_at-handed crc32 (x ∷ xs) q = (refl, refl)

-- Next hands out the least cursor beyond the given one, the least of all for `-1`, and nothing
-- when there is none; it removes no cursor.
pub next-handed :
    (crc32 : ℕ → ℕ → ℕ) (q : StoreMetaQueue) (m : StoreMeta)
    → IsAscending q.metas
    → (handed (next crc32 q m) ≡ (
        if m.cursor_id == no_cursor
        then first q.metas
        else first (keep (beyond m.cursor_id) q.metas)))
      × ((next crc32 q m).1.metas ≡ q.metas)
unfolding next
next-handed crc32 q m h = elim (Bool-cases (m.cursor_id == no_cursor)) [
  | inl e ↦ rw e (next_at-handed crc32 q.metas q)
  | inr e ↦ rw (e, ← upper_bound-keep m q.metas h) (next_at-handed crc32 (upper_bound m q.metas) q)
]
