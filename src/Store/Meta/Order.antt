-- ===== src/Store/Meta/Order.antt =====
-- The order of the cursors of the set, and what each operation does to it.
use phxqueue.Common.{
  ℕ, ◌≤◌, ◌<◌, ◌≡◌, refl, ◌≢◌, Bool, true, false, ◌⊎◌, inl, inr, none, some, List, [], ◌∷◌, ◌++◌,
  arith, ltb, ◌==◌, Bool-cases, Option-cases, All,
}
use phxqueue.Store.Meta.{
  StoreMeta, StoreMetaQueue, no_cursor, upper_bound, lower_bound, insert_meta, last, pushed_first,
  pushed, push_back,
}

-- Every cursor of the list is beyond `c`, each is beyond the one before it, and none is `-1`.
abbrev pub Ascends : ℕ → List StoreMeta → Type 0
Ascends c [] = Unit {0}
Ascends c (x ∷ xs) = (c < x.cursor_id) × (x.cursor_id < no_cursor) × Ascends x.cursor_id xs

-- The same from any start: the head is only a real cursor.
abbrev pub IsAscending : List StoreMeta → Type 0
IsAscending [] = Unit {0}
IsAscending (x ∷ xs) = (x.cursor_id < no_cursor) × Ascends x.cursor_id xs

pub Ascends-IsAscending : (c : ℕ) (xs : List StoreMeta) → Ascends c xs → IsAscending xs
Ascends-IsAscending c [] h = tt
Ascends-IsAscending c (x ∷ xs) h = (h.1, h.2)

pub tail-IsAscending : (x : StoreMeta) (xs : List StoreMeta) → IsAscending (x ∷ xs) → IsAscending xs
tail-IsAscending x xs h = Ascends-IsAscending x.cursor_id xs h.1

pub Ascends-weaken : (c d : ℕ) (xs : List StoreMeta) → c ≤ d → Ascends d xs → Ascends c xs
Ascends-weaken c d [] le h = tt
Ascends-weaken c d (x ∷ xs) le h = (omega arith, h.1, h.2)

pub upper_bound-IsAscending :
    (m : StoreMeta) (xs : List StoreMeta) → IsAscending xs → IsAscending (upper_bound m xs)
unfolding upper_bound
upper_bound-IsAscending m [] h = tt
upper_bound-IsAscending m (x ∷ xs) h =
    ground (arith, upper_bound-IsAscending m xs (tail-IsAscending x xs h))

pub lower_bound-IsAscending :
    (m : StoreMeta) (xs : List StoreMeta) → IsAscending xs → IsAscending (lower_bound m xs)
unfolding lower_bound
lower_bound-IsAscending m [] h = tt
lower_bound-IsAscending m (x ∷ xs) h =
    ground (arith, lower_bound-IsAscending m xs (tail-IsAscending x xs h))

-- An element beyond the last one is inserted at the end.
insert_meta-last_from :
    (m : StoreMeta) (x : StoreMeta) (xs : List StoreMeta) (b : StoreMeta)
    → Ascends x.cursor_id xs
    → last (x ∷ xs) ≡ some b
    → b.cursor_id < m.cursor_id
    → (x.cursor_id < m.cursor_id) × (insert_meta m (x ∷ xs) ≡ (x ∷ xs) ++ m ∷ [])
unfolding insert_meta last
insert_meta-last_from m x [] b h e lt = ground arith
insert_meta-last_from m x (y ∷ ys) b h e lt =
    ground (arith, insert_meta-last_from m y ys b h.2 e lt)

pub insert_meta-last :
    (m : StoreMeta) (xs : List StoreMeta) (b : StoreMeta)
    → IsAscending xs
    → last xs ≡ some b
    → b.cursor_id < m.cursor_id
    → insert_meta m xs ≡ xs ++ m ∷ []
unfolding last
insert_meta-last m [] b h e lt = cc
insert_meta-last m (x ∷ xs) b h e lt = (insert_meta-last_from m x xs b h.1 e lt).1

Ascends-snoc :
    (c : ℕ) (x : StoreMeta) (xs : List StoreMeta) (b m : StoreMeta)
    → Ascends c (x ∷ xs)
    → last (x ∷ xs) ≡ some b
    → b.cursor_id < m.cursor_id
    → m.cursor_id < no_cursor
    → Ascends c ((x ∷ xs) ++ m ∷ [])
unfolding last
Ascends-snoc c x [] b m h e lt real = ground arith
Ascends-snoc c x (y ∷ ys) b m h e lt real =
    (h.0, h.1, Ascends-snoc x.cursor_id y ys b m h.2 e lt real)

pub IsAscending-snoc :
    (xs : List StoreMeta) (b m : StoreMeta)
    → IsAscending xs
    → last xs ≡ some b
    → b.cursor_id < m.cursor_id
    → m.cursor_id < no_cursor
    → IsAscending (xs ++ m ∷ [])
unfolding last
IsAscending-snoc [] b m h e lt real = (real, tt)
IsAscending-snoc (x ∷ []) b m h e lt real = ground arith
IsAscending-snoc (x ∷ y ∷ ys) b m h e lt real =
    (h.0, Ascends-snoc x.cursor_id y ys b m h.1 e lt real)

pub last-some : (x : StoreMeta) (xs : List StoreMeta) → (b : StoreMeta) × (last (x ∷ xs) ≡ some b)
unfolding last
last-some x [] = (x, refl)
last-some x (y ∷ ys) = last-some y ys

pub last-none : (xs : List StoreMeta) → last xs ≡ none → xs ≡ []
last-none [] e = refl
last-none (x ∷ xs) e = let (b, f) = last-some x xs in cc

-- In an ascending list every cursor is at most the last one.
pub All-le-last :
    (x : StoreMeta) (xs : List StoreMeta) (b : StoreMeta) (n : ℕ)
    → Ascends x.cursor_id xs
    → last (x ∷ xs) ≡ some b
    → b.cursor_id < n
    → All (λ y. y.cursor_id < n) (x ∷ xs)
unfolding last
All-le-last x [] b n h e lt = ground arith
All-le-last x (y ∷ ys) b n h e lt = let rest = All-le-last y ys b n h.2 e lt in (omega arith, rest)

pub All-lt-last :
    (xs : List StoreMeta) (b : StoreMeta) (n : ℕ)
    → IsAscending xs
    → last xs ≡ some b
    → b.cursor_id < n
    → All (λ y. y.cursor_id < n) xs
All-lt-last [] b n h e lt = tt
All-lt-last (x ∷ xs) b n h e lt = All-le-last x xs b n h.1 e lt

-- What a push does: it appends one element with the given cursor, which is beyond all others, or
-- it changes nothing because the cursor is `-1` or is not beyond the back one.
abbrev pub Pushes : StoreMetaQueue → StoreMeta → Bool × StoreMetaQueue → Type 0
Pushes q m (done, q') =
    ((done ≡ true)
      × All (λ x. x.cursor_id < m.cursor_id) q.metas
      × (b : StoreMeta) × (b.cursor_id ≡ m.cursor_id)
      × (q'.metas ≡ q.metas ++ b ∷ [])
      × (q'.last_dequeue_meta ≡ q.last_dequeue_meta))
    ⊎ ((done ≡ false)
        × (q' ≡ q)
        × ((m.cursor_id ≡ no_cursor)
            ⊎ ((b : StoreMeta) × (last q.metas ≡ some b) × (m.cursor_id ≤ b.cursor_id))))

-- The first element takes its checksum from the last cursor handed out, the others from the back.
pub push_back-empty :
    (crc32 : ℕ → ℕ → ℕ) (q : StoreMetaQueue) (m : StoreMeta)
    → last q.metas ≡ none
    → m.cursor_id ≢ no_cursor
    → push_back crc32 q m ≡ (true, record q { metas = pushed_first crc32 q m ∷ [] })
unfolding push_back
push_back-empty crc32 q m e real = ground (arith, last-none q.metas)

pub push_back-append :
    (crc32 : ℕ → ℕ → ℕ) (q : StoreMetaQueue) (m b : StoreMeta)
    → last q.metas ≡ some b
    → IsAscending q.metas
    → b.cursor_id < m.cursor_id
    → m.cursor_id ≢ no_cursor
    → push_back crc32 q m ≡ (true, record q { metas = q.metas ++ pushed crc32 b m ∷ [] })
unfolding push_back
push_back-append crc32 q m b e h lt real =
    ground (arith, insert_meta-last (pushed crc32 b m) q.metas b h e)

pub push_back-refuse :
    (crc32 : ℕ → ℕ → ℕ) (q : StoreMetaQueue) (m b : StoreMeta)
    → last q.metas ≡ some b
    → m.cursor_id ≤ b.cursor_id
    → push_back crc32 q m ≡ (false, q)
unfolding push_back
push_back-refuse crc32 q m b e le = ground arith

pub push_back-refuse_none :
    (crc32 : ℕ → ℕ → ℕ) (q : StoreMetaQueue) (m : StoreMeta)
    → m.cursor_id ≡ no_cursor
    → push_back crc32 q m ≡ (false, q)
unfolding push_back
push_back-refuse_none crc32 q m e = ground arith

pub pushed-cursor :
    (crc32 : ℕ → ℕ → ℕ) (b m : StoreMeta) → (pushed crc32 b m).cursor_id ≡ m.cursor_id
unfolding pushed
pushed-cursor crc32 b m = ground arith

pub pushed_first-cursor :
    (crc32 : ℕ → ℕ → ℕ) (q : StoreMetaQueue) (m : StoreMeta)
    → (pushed_first crc32 q m).cursor_id ≡ m.cursor_id
unfolding pushed_first
pushed_first-cursor crc32 q m = ground arith

-- PushBack appends one element that carries the given cursor, and only when that cursor is real
-- and beyond every cursor of the set; otherwise it reports a failure and leaves the queue as it was.
pub push_back-Pushes :
    (crc32 : ℕ → ℕ → ℕ) (q : StoreMetaQueue) (m : StoreMeta)
    → IsAscending q.metas
    → Pushes q m (push_back crc32 q m)
push_back-Pushes crc32 q m h = elim (Bool-cases (m.cursor_id == no_cursor)) [
  | inl e ↦
      rw (push_back-refuse_none crc32 q m (ground arith)) (inr (refl, refl, inl (ground arith)))
  | inr real ↦ elim (Option-cases (last q.metas)) [
    | inl e ↦ rw (push_back-empty crc32 q m e (ground arith)) (
        inl (
          refl,
          rw (last-none q.metas e) tt,
          pushed_first crc32 q m,
          pushed_first-cursor crc32 q m,
          rw (last-none q.metas e),
          refl,
        ))
    | inr (b, e) ↦ elim (Bool-cases (ltb b.cursor_id m.cursor_id)) [
      | inl lt ↦ rw (push_back-append crc32 q m b e h (ground arith) (ground arith)) (
          inl (
            refl,
            All-lt-last q.metas b m.cursor_id h e (ground arith),
            pushed crc32 b m,
            pushed-cursor crc32 b m,
            refl,
            refl,
          ))
      | inr ge ↦
          rw (push_back-refuse crc32 q m b e (ground arith))
            (inr (refl, refl, inr (b, e, ground arith)))
    ]
  ]
]
