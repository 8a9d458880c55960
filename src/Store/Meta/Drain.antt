-- ===== src/Store/Meta/Drain.antt =====
-- A consumer that calls `Next` with the cursor that it got last, as the loop of `BaseMgr::Get` does.
use phxqueue.Common.{
  ℕ, zero, suc, ◌≤◌, ◌<◌, ◌≡◌, ap, ◌∙◌, subst, refl, ◌≢◌, Bool, true, ◌⊎◌, inl, inr, none, some,
  List, [], ◌∷◌, arith, length, ltb, ◌==◌, Bool-cases,
}
use phxqueue.Store.Meta.{
  StoreMeta, StoreMetaQueue, no_cursor, empty_meta, upper_bound, next, next_at, advance, crc_pass,
}
use phxqueue.Store.Meta.Order.{IsAscending, Ascends, tail-IsAscending, upper_bound-IsAscending}
use phxqueue.Store.Meta.Erase.{keep, beyond, upper_bound-keep}
use phxqueue.Store.Meta.Chain.{IsLinked, IsValid, tail-IsLinked, upper_bound-IsLinked}

-- The cursors that it reads in at most `n` calls, each with the verdict on its checksum.
pub drain : (ℕ → ℕ → ℕ) → ℕ → StoreMetaQueue → StoreMeta → List (StoreMeta × Bool)
drain crc32 zero q m = []
drain crc32 (suc n) q m =
    let (r, q') = next crc32 q m in
    elim r [ none ↦ [] | some (x, ok) ↦ (x, ok) ∷ drain crc32 n q' x ]

abbrev pub passing : List StoreMeta → List (StoreMeta × Bool)
passing [] = []
passing (x ∷ xs) = (x, true) ∷ passing xs

-- Where the cursors `xs` are read in turn after `old` was handed out last, the first one beyond
-- `old` continues its checksum.
abbrev pub InStep : (ℕ → ℕ → ℕ) → StoreMeta → List StoreMeta → Type 0
InStep crc32 old [] = Unit {0}
InStep crc32 old (x ∷ xs) =
    (old.cursor_id ≡ no_cursor)
    ⊎ (((old.cursor_id < x.cursor_id) × (x.crc ≡ crc32 old.crc x.cursor_id))
        ⊎ ((x.cursor_id ≤ old.cursor_id) × InStep crc32 old xs))

upper_bound_self :
    (x : StoreMeta) (xs : List StoreMeta) → Ascends x.cursor_id xs → upper_bound x xs ≡ xs
unfolding upper_bound
upper_bound_self x [] h = refl
upper_bound_self x (z ∷ zs) h = ground arith

pub upper_bound-head :
    (x : StoreMeta) (xs : List StoreMeta) → Ascends x.cursor_id xs → upper_bound x (x ∷ xs) ≡ xs
unfolding upper_bound
upper_bound-head x xs h = ground (arith, upper_bound_self x xs h)

upper_bound-next_from :
    (c : ℕ) (m : StoreMeta) (xs : List StoreMeta) (y : StoreMeta) (ys : List StoreMeta)
    → Ascends c xs
    → upper_bound m xs ≡ y ∷ ys
    → (c < y.cursor_id) × (upper_bound y xs ≡ ys)
unfolding upper_bound
upper_bound-next_from c m [] y ys h e = cc
upper_bound-next_from c m (x ∷ xs) y ys h e =
    ground (arith, upper_bound-next_from x.cursor_id m xs y ys h.2, upper_bound_self x xs h.2)

-- After the element that follows `m` comes the rest of what follows `m`.
pub upper_bound-next :
    (m : StoreMeta) (xs : List StoreMeta) (y : StoreMeta) (ys : List StoreMeta)
    → IsAscending xs
    → upper_bound m xs ≡ y ∷ ys
    → (y.cursor_id < no_cursor) × (upper_bound y xs ≡ ys)
unfolding upper_bound
upper_bound-next m [] y ys h e = cc
upper_bound-next m (x ∷ xs) y ys h e = elim (Bool-cases (ltb m.cursor_id x.cursor_id)) [
  | inl lt ↦ ground (arith, upper_bound_self x xs h.1)
  | inr ge ↦
      let rest = upper_bound-next_from x.cursor_id m xs y ys h.1 (ground arith) in
      let real = upper_bound-IsAscending m xs (tail-IsAscending x xs h) in ground arith
]

length-upper_bound : (m : StoreMeta) (xs : List StoreMeta) → length (upper_bound m xs) ≤ length xs
unfolding upper_bound
length-upper_bound m [] = omega arith
length-upper_bound m (x ∷ xs) = ground (arith, length-upper_bound m xs)

module _ (crc32 : ℕ → ℕ → ℕ) where
  InStep-linked :
      (x : StoreMeta) (xs : List StoreMeta)
      → Ascends x.cursor_id xs
      → IsLinked crc32 (x ∷ xs)
      → InStep crc32 x xs
  InStep-linked x [] h l = tt
  InStep-linked x (y ∷ ys) h l = inr (inl (h.0, l.1.1))

  -- The head passes its test, and the rest is in step once it has been handed out.
  InStep-head :
      (old x : StoreMeta) (xs : List StoreMeta)
      → x.cursor_id < no_cursor
      → Ascends x.cursor_id xs
      → IsLinked crc32 (x ∷ xs)
      → InStep crc32 old (x ∷ xs)
      → (crc_pass crc32 old x ≡ true) × InStep crc32 (advance old x) xs
  unfolding crc_pass advance
  InStep-head old x xs real h l (inl none_yet) =
      let next_step = InStep-linked x xs h l in
      let moved : advance old x ≡ x = ground arith in (ground arith, rw moved next_step)
  InStep-head old x xs real h l (inr (inl (lt, e))) =
      let next_step = InStep-linked x xs h l in
      let moved : advance old x ≡ x = ground arith in (ground arith, rw moved next_step)
  InStep-head old x xs real h l (inr (inr (le, s))) =
      let next_step = InStep-linked x xs h l in
      (
        ground arith,
        elim (Bool-cases (old.cursor_id == no_cursor)) [
          | inl e ↦ let moved : advance old x ≡ x = ground arith in rw moved next_step
          | inr e ↦ let kept : advance old x ≡ old = ground arith in rw kept s
        ],
      )

  -- One round of the loop.
  drain-round :
      (n : ℕ) (q : StoreMetaQueue) (m x : StoreMeta) (xs : List StoreMeta)
      → m.cursor_id ≢ no_cursor
      → upper_bound m q.metas ≡ x ∷ xs
      → crc_pass crc32 q.last_dequeue_meta x ≡ true
      → drain crc32 (suc n) q m
        ≡ (x, true)
          ∷ drain crc32 n (record q { last_dequeue_meta = advance q.last_dequeue_meta x }) x
  unfolding drain next next_at
  drain-round n q m x xs real e pass = ground arith

  drain-passing :
      (n : ℕ) (q : StoreMetaQueue) (m : StoreMeta) (ys : List StoreMeta)
      → IsAscending q.metas
      → m.cursor_id ≢ no_cursor
      → upper_bound m q.metas ≡ ys
      → IsAscending ys
      → IsLinked crc32 ys
      → InStep crc32 q.last_dequeue_meta ys
      → length ys ≤ n
      → drain crc32 n q m ≡ passing ys
  unfolding drain next next_at
  drain-passing zero q m [] h real e a l s le = refl
  drain-passing zero q m (y ∷ ys) h real e a l s le = absurd (omega arith)
  drain-passing (suc n) q m [] h real e a l s le = ground arith
  drain-passing (suc n) q m (y ∷ ys) h real e a l s le =
      let (pass, s') = InStep-head q.last_dequeue_meta y ys a.0 a.1 l s in
      let q' : StoreMetaQueue = record q { last_dequeue_meta = advance q.last_dequeue_meta y } in
      rw (drain-round n q m y ys real e pass) (
        ap (λ (zs : List (StoreMeta × Bool)). (y, true) ∷ zs)
          (drain-passing n q' y ys h (omega arith) (upper_bound-next m q.metas y ys h e).1
            (tail-IsAscending y ys a) (tail-IsLinked crc32 y ys l) s' (omega arith)))

  -- Reading on from a real cursor, one `Next` after another, yields every cursor of the queue beyond
  -- it, once and in order, and every checksum passes, if the queue is valid and the reader stands no
  -- further than the last cursor handed out.
  pub drain-beyond :
      (n : ℕ) (q : StoreMetaQueue) (m : StoreMeta)
      → IsValid crc32 q
      → m.cursor_id ≢ no_cursor
      → InStep crc32 q.last_dequeue_meta (upper_bound m q.metas)
      → length q.metas ≤ n
      → drain crc32 n q m ≡ passing (keep (beyond m.cursor_id) q.metas)
  drain-beyond n q m v real s le = rw (← upper_bound-keep m q.metas v.ascending) (
      drain-passing n q m (upper_bound m q.metas) v.ascending real refl
        (upper_bound-IsAscending m q.metas v.ascending)
        (upper_bound-IsLinked crc32 m q.metas v.linked) s
        (omega (arith, length-upper_bound m q.metas)))

  drain-round_first :
      (n : ℕ) (q : StoreMetaQueue) (x : StoreMeta) (xs : List StoreMeta)
      → q.metas ≡ x ∷ xs
      → crc_pass crc32 q.last_dequeue_meta x ≡ true
      → drain crc32 (suc n) q empty_meta
        ≡ (x, true)
          ∷ drain crc32 n (record q { last_dequeue_meta = advance q.last_dequeue_meta x }) x
  unfolding drain next next_at
  drain-round_first n q x xs e pass = ground arith

  drain-none : (n : ℕ) (q : StoreMetaQueue) → q.metas ≡ [] → drain crc32 (suc n) q empty_meta ≡ []
  unfolding drain next next_at
  drain-none n q e = ground arith

  drain-all_at :
      (n : ℕ) (q : StoreMetaQueue) (xs : List StoreMeta)
      → q.metas ≡ xs
      → IsValid crc32 q
      → q.last_dequeue_meta.cursor_id ≡ no_cursor
      → length xs ≤ n
      → drain crc32 n q empty_meta ≡ passing xs
  unfolding drain
  drain-all_at zero q [] e v fresh le = refl
  drain-all_at zero q (x ∷ xs) e v fresh le = absurd (omega arith)
  drain-all_at (suc n) q [] e v fresh le = drain-none n q e
  drain-all_at (suc n) q (x ∷ xs) e v fresh le =
      let a : IsAscending (x ∷ xs) = subst IsAscending e v.ascending in
      let l : IsLinked crc32 (x ∷ xs) = subst (IsLinked crc32) e v.linked in
      let (pass, s) = InStep-head q.last_dequeue_meta x xs a.0 a.1 l (inl fresh) in
      let q' : StoreMetaQueue = record q { last_dequeue_meta = advance q.last_dequeue_meta x } in
      rw (drain-round_first n q x xs e pass) (
        ap (λ (zs : List (StoreMeta × Bool)). (x, true) ∷ zs)
          (drain-passing n q' x xs v.ascending (omega arith)
            (ap (upper_bound x) e ∙ upper_bound-head x xs a.1) (tail-IsAscending x xs a)
            (tail-IsLinked crc32 x xs l) s (omega arith)))

  -- A first reader, which begins with `-1`, gets the whole queue in order, and every checksum passes.
  pub drain-all :
      (n : ℕ) (q : StoreMetaQueue)
      → IsValid crc32 q
      → q.last_dequeue_meta.cursor_id ≡ no_cursor
      → length q.metas ≤ n
      → drain crc32 n q empty_meta ≡ passing q.metas
  drain-all n q v fresh le = drain-all_at n q q.metas refl v fresh le
