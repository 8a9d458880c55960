-- ===== src/Store/Meta/Chain.antt =====
-- The links between the elements of the set, by their indexes and checksums, under every call.
use phxqueue.Common.{
  ℕ, ◌+◌, ◌%◌, ◌≤◌, ◌<◌, ◌≡◌, refl, inl, inr, some, List, [], ◌∷◌, ◌++◌, arith, ltb, ◌==◌,
  Bool-cases, Option-cases,
}
use phxqueue.Store.Meta.{
  StoreMeta, StoreMetaQueue, no_cursor, int_mod, meta_of, empty_queue, upper_bound, lower_bound,
  last, next, pushed, pushed_first, push_back, erase_front_till, erase_front_until,
  update_dequeue_stat, clear, clear_dequeue_stat,
}
use phxqueue.Store.Meta.Order.{
  IsAscending, IsAscending-snoc, upper_bound-IsAscending, lower_bound-IsAscending, push_back-empty,
  push_back-append, push_back-refuse, push_back-refuse_none, pushed-cursor, pushed_first-cursor,
}
use phxqueue.Store.Meta.Erase.{next-handed}

module _ (crc32 : ℕ → ℕ → ℕ) where
  abbrev pub Follows : StoreMeta → StoreMeta → Type 0
  Follows x y = (y.index ≡ (x.index + 1) % int_mod) × (y.crc ≡ crc32 x.crc y.cursor_id)

  abbrev pub IsLinked : List StoreMeta → Type 0
  IsLinked [] = Unit {0}
  IsLinked (x ∷ []) = x.index < int_mod
  IsLinked (x ∷ y ∷ ys) = (x.index < int_mod) × Follows x y × IsLinked (y ∷ ys)

  pub tail-IsLinked : (x : StoreMeta) (xs : List StoreMeta) → IsLinked (x ∷ xs) → IsLinked xs
  tail-IsLinked x [] h = tt
  tail-IsLinked x (y ∷ ys) h = h.2

  pub upper_bound-IsLinked :
      (m : StoreMeta) (xs : List StoreMeta) → IsLinked xs → IsLinked (upper_bound m xs)
  unfolding upper_bound
  upper_bound-IsLinked m [] h = tt
  upper_bound-IsLinked m (x ∷ xs) h =
      ground (arith, upper_bound-IsLinked m xs (tail-IsLinked x xs h))

  pub lower_bound-IsLinked :
      (m : StoreMeta) (xs : List StoreMeta) → IsLinked xs → IsLinked (lower_bound m xs)
  unfolding lower_bound
  lower_bound-IsLinked m [] h = tt
  lower_bound-IsLinked m (x ∷ xs) h =
      ground (arith, lower_bound-IsLinked m xs (tail-IsLinked x xs h))

  pub IsLinked-snoc :
      (xs : List StoreMeta) (b m : StoreMeta)
      → IsLinked xs
      → last xs ≡ some b
      → Follows b m
      → IsLinked (xs ++ m ∷ [])
  unfolding last
  IsLinked-snoc [] b m h e f = cc
  IsLinked-snoc (x ∷ []) b m h e f = ground arith
  IsLinked-snoc (x ∷ y ∷ ys) b m h e f = (h.0, h.1, IsLinked-snoc (y ∷ ys) b m h.2 e f)

  pub record IsValid (q : StoreMetaQueue) : Type 0 where
    pub ascending : IsAscending q.metas
    pub linked : IsLinked q.metas

  pushed-Follows : (b : StoreMeta) (c : ℕ) → Follows b (pushed crc32 b (meta_of c))
  unfolding pushed
  pushed-Follows b c = (refl, refl)

  pushed_first-IsLinked :
      (q : StoreMetaQueue) (m : StoreMeta) → IsLinked (pushed_first crc32 q m ∷ [])
  unfolding pushed_first
  pushed_first-IsLinked q m = ground arith

  pub push_back-IsValid :
      (q : StoreMetaQueue) (c : ℕ)
      → c ≤ no_cursor
      → IsValid q
      → IsValid (push_back crc32 q (meta_of c)).1
  push_back-IsValid q c le v = elim (Bool-cases (c == no_cursor)) [
    | inl e ↦ rw (push_back-refuse_none crc32 q (meta_of c) (ground arith)) v
    | inr real ↦ elim (Option-cases (last q.metas)) [
      | inl e ↦ rw (push_back-empty crc32 q (meta_of c) e (ground arith)) (record {
        ascending = ground (arith, pushed_first-cursor crc32 q (meta_of c));
        linked = pushed_first-IsLinked q (meta_of c);
      })
      | inr (b, e) ↦ elim (Bool-cases (ltb b.cursor_id c)) [
        | inl lt ↦
            rw (push_back-append crc32 q (meta_of c) b e v.ascending (ground arith) (ground arith))
              (record {
                ascending =
                    IsAscending-snoc q.metas b (pushed crc32 b (meta_of c)) v.ascending e
                      (ground (arith, pushed-cursor crc32 b (meta_of c)))
                      (ground (arith, pushed-cursor crc32 b (meta_of c)));
                linked =
                    IsLinked-snoc q.metas b (pushed crc32 b (meta_of c)) v.linked e
                      (pushed-Follows b c);
              })
        | inr ge ↦ rw (push_back-refuse crc32 q (meta_of c) b e (ground arith)) v
      ]
    ]
  ]

  pub same_metas-IsValid : (q r : StoreMetaQueue) → r.metas ≡ q.metas → IsValid q → IsValid r
  same_metas-IsValid q r e v = record { ascending = rw e v.ascending; linked = rw e v.linked }

  pub upper-IsValid :
      (q : StoreMetaQueue) (m : StoreMeta)
      → IsValid q
      → IsValid (record q { metas = upper_bound m q.metas })
  upper-IsValid q m v = record {
    ascending = upper_bound-IsAscending m q.metas v.ascending;
    linked = upper_bound-IsLinked m q.metas v.linked;
  }

  pub lower-IsValid :
      (q : StoreMetaQueue) (m : StoreMeta)
      → IsValid q
      → IsValid (record q { metas = lower_bound m q.metas })
  lower-IsValid q m v = record {
    ascending = lower_bound-IsAscending m q.metas v.ascending;
    linked = lower_bound-IsLinked m q.metas v.linked;
  }

  pub erase_front_till-IsValid :
      (q : StoreMetaQueue) (m : StoreMeta) → IsValid q → IsValid (erase_front_till q m)
  unfolding erase_front_till
  erase_front_till-IsValid q m v = elim (Bool-cases (m.cursor_id == no_cursor)) [
    | inl e ↦ rw e v
    | inr e ↦ rw e (upper-IsValid q m v)
  ]

  pub erase_front_until-IsValid :
      (q : StoreMetaQueue) (m : StoreMeta) → IsValid q → IsValid (erase_front_until q m)
  unfolding erase_front_until
  erase_front_until-IsValid q m v = elim (Bool-cases (m.cursor_id == no_cursor)) [
    | inl e ↦ rw e v
    | inr e ↦ rw e (lower-IsValid q m v)
  ]

  update_dequeue_stat-metas :
      (q : StoreMetaQueue) (m : StoreMeta) → (update_dequeue_stat q m).metas ≡ q.metas
  unfolding update_dequeue_stat
  update_dequeue_stat-metas q m = ground arith

  clear_dequeue_stat-metas : (q : StoreMetaQueue) → (clear_dequeue_stat q).metas ≡ q.metas
  unfolding clear_dequeue_stat
  clear_dequeue_stat-metas q = ground arith

  -- The calls that change a queue. A push is of `StoreMeta(cursor_id)`, as in `BaseMgr::Add`.
  pub data Call : Type 0 where
    pushes nexts erases_till erases_until updates : ℕ → Call
    clears clears_stat : Call

  unfoldable pub step : StoreMetaQueue → Call → StoreMetaQueue
  step q (pushes c) = (push_back crc32 q (meta_of c)).1
  step q (nexts c) = (next crc32 q (meta_of c)).1
  step q (erases_till c) = erase_front_till q (meta_of c)
  step q (erases_until c) = erase_front_until q (meta_of c)
  step q (updates c) = update_dequeue_stat q (meta_of c)
  step q clears = clear q
  step q clears_stat = clear_dequeue_stat q

  -- A cursor is a `uint64_t`.
  abbrev pub InRange : Call → Type 0
  InRange (pushes c) = c ≤ no_cursor
  InRange _ = Unit {0}

  abbrev pub AllInRange : List Call → Type 0
  AllInRange [] = Unit {0}
  AllInRange (c ∷ cs) = InRange c × AllInRange cs

  unfoldable pub run : StoreMetaQueue → List Call → StoreMetaQueue
  run q [] = q
  run q (c ∷ cs) = run (step q c) cs

  step-IsValid : (q : StoreMetaQueue) (c : Call) → InRange c → IsValid q → IsValid (step q c)
  unfolding step clear
  step-IsValid q (pushes c) r v = push_back-IsValid q c r v
  step-IsValid q (nexts c) r v =
      same_metas-IsValid q (next crc32 q (meta_of c)).1
        (next-handed crc32 q (meta_of c) v.ascending).1 v
  step-IsValid q (erases_till c) r v = erase_front_till-IsValid q (meta_of c) v
  step-IsValid q (erases_until c) r v = erase_front_until-IsValid q (meta_of c) v
  step-IsValid q (updates c) r v =
      same_metas-IsValid q (update_dequeue_stat q (meta_of c))
        (update_dequeue_stat-metas q (meta_of c)) v
  step-IsValid q clears r v = record { ascending = tt; linked = tt }
  step-IsValid q clears_stat r v =
      same_metas-IsValid q (clear_dequeue_stat q) (clear_dequeue_stat-metas q) v

  run-IsValid_from :
      (cs : List Call) (q : StoreMetaQueue) → AllInRange cs → IsValid q → IsValid (run q cs)
  unfolding run
  run-IsValid_from [] q r v = v
  run-IsValid_from (c ∷ cs) q r v = run-IsValid_from cs (step q c) r.1 (step-IsValid q c r.0 v)

  -- After any history of calls the cursors of the queue are distinct, real and in ascending order,
  -- each index is the one before it plus one (mod 2^32), and each checksum continues the one before
  -- it, if every pushed cursor is a 64-bit number.
  pub run-IsValid : (cs : List Call) → AllInRange cs → IsValid (run empty_queue cs)
  run-IsValid cs r = run-IsValid_from cs empty_queue r (record { ascending = tt; linked = tt })
