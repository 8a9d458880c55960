-- ===== src/Store/Base/Deliver.antt =====
-- What the loop of `Get` passes and hands out.
use phxqueue.Common.{
  ℕ, zero, suc, ◌≡◌, ◌≢◌, ◌≤◌, ◌<◌, refl, sym, ap, ◌∙◌, subst, ◌⊎◌, inl, inr, Bool, true, false,
  ◌&&◌, ◌||◌, not, Option, none, some, List, [], ◌∷◌, ◌++◌, arith, ltb, leb, ◌==◌, if◌then◌else◌,
  Bool-cases, Option-cases, length,
}
use mathlib.Core.List.{append-nil, append_assoc}
use phxqueue.Common.RetCode.{RetCode}
use phxqueue.Store.Meta.{StoreMeta, StoreMetaQueue, no_cursor, first, meta_of, next}
use phxqueue.Store.Meta.Order.{IsAscending}
use phxqueue.Store.Meta.Erase.{keep, beyond, handed, next-handed}
use phxqueue.Store.Base.{
  QItem, GetRequest, Topic, Chosen, Scan, Round, go, stop, quit, get_items_by_cursor_id, serve,
  replayed, is_late, round, scan,
}
use phxqueue.Store.Base.Logged.{picked, wanted-picked, logged, get_items-logged}

abbrev pub left_by : Round → Scan
left_by (go s) = s
left_by (stop s) = s
left_by (quit ret s) = s

abbrev pub id_of : Option StoreMeta → Option ℕ
id_of none = none
id_of (some m) = some m.cursor_id

Round-cases :
    (r : Round)
    → ((s : Scan) × (r ≡ go s))
      ⊎ (((s : Scan) × (r ≡ stop s)) ⊎ ((ret : RetCode) × (s : Scan) × (r ≡ quit ret s)))
Round-cases (go s) = inl (s, refl)
Round-cases (stop s) = inr (inl (s, refl))
Round-cases (quit ret s) = inr (inr (ret, s, refl))

handed_found :
    (r : Option (StoreMeta × Bool) × StoreMetaQueue) (m : StoreMeta) (pass : Bool)
    → r.0 ≡ some (m, pass)
    → handed r ≡ some m
handed_found (none, q) m pass h = cc
handed_found (some (x, ok), q) m pass h = ground (arith, h)

-- The cursors of the queue beyond one, all of them for `-1`.
abbrev pub unseen : ℕ → List StoreMeta → List StoreMeta
unseen cur metas = if cur == no_cursor then metas else keep (beyond cur) metas

first-unseen :
    (cur : ℕ) (metas : List StoreMeta)
    → first (unseen cur metas)
      ≡ (if cur == no_cursor then first metas else first (keep (beyond cur) metas))
first-unseen cur metas = elim (Bool-cases (cur == no_cursor)) [ inl e ↦ rw e | inr e ↦ rw e ]

-- The least instance after `cur` that is still stored, where `min` is the least one that is, or -1
-- if that is not known.
abbrev pub IsNextStored : ℕ → ℕ → ℕ → Type 0
IsNextStored min cur x =
    (cur < x)
    × (min ≢ no_cursor → min ≤ x)
    × ((y : ℕ) → cur < y → (min ≢ no_cursor → min ≤ y) → x ≤ y)

abbrev pub last_of : ℕ → List ℕ → ℕ
last_of cur [] = cur
last_of cur (x ∷ xs) = last_of x xs

module _ (crc32 : ℕ → ℕ → ℕ) (t : Topic) (c : Chosen) (req : GetRequest) where
  -- The items of a cursor that the consumer group is to get: none where it has acknowledged it.
  abbrev pub due : ℕ → ℕ → List QItem
  due prev cur =
      if not (prev == no_cursor) && leb cur prev
      then []
      else picked (t.should_skip req.consumer_group_id) (logged c req.queue_id cur)

  abbrev pub due_all : ℕ → List ℕ → List QItem
  due_all prev [] = []
  due_all prev (x ∷ xs) = due prev x ++ due_all prev xs

  serve_moves :
      (prev cur : ℕ) (s : Scan)
      → let s' = left_by (serve crc32 t c req prev cur s) in
        (s'.queue ≡ s.queue)
        × (((s'.next_cursor_id ≡ s.next_cursor_id) × (s'.items ≡ s.items))
            ⊎ ((s'.next_cursor_id ≡ cur) × (s'.items ≡ s.items ++ due prev cur)))
  unfolding serve
  serve_moves prev cur s = ground (
    arith,
    append-nil s.items,
    get_items-logged c req.queue_id cur,
    wanted-picked (t.should_skip req.consumer_group_id)
        (get_items_by_cursor_id c req.queue_id cur).1,
  )

  -- The cursor that comes after `cur`: behind the checkpoint the least cursor of the queue that is
  -- beyond, before it the next instance of the log that is still stored.
  abbrev pub Succeeds : ℕ → List StoreMeta → ℕ → ℕ → Type 0
  Succeeds cp metas cur x =
      ((cp == no_cursor || leb cp cur) ≡ true → id_of (first (unseen cur metas)) ≡ some x)
      × ((cp == no_cursor || leb cp cur) ≡ false → IsNextStored c.min_chosen_instance_id cur x)

  replayed-IsNextStored :
      (cp cur : ℕ)
      → cp ≤ no_cursor
      → (cp == no_cursor || leb cp cur) ≡ false
      → IsNextStored c.min_chosen_instance_id cur (replayed crc32 t c req cur)
  unfolding replayed
  replayed-IsNextStored cp cur le before = (
    ground arith,
    λ real. ground (arith, real),
    λ y beyond stored. elim (Bool-cases (c.min_chosen_instance_id == no_cursor)) [
      | inl unset ↦ ground arith
      | inr set' ↦ let at_least = stored (λ e. ground arith) in ground arith
    ],
  )

  -- A scan stays where it is, or goes on to the next cursor and takes its items.
  abbrev pub Moves : ℕ → ℕ → Scan → Scan → Type 0
  Moves cp prev s s' =
      (s'.queue.metas ≡ s.queue.metas)
      × (((s'.next_cursor_id ≡ s.next_cursor_id) × (s'.items ≡ s.items))
          ⊎ ((x : ℕ) × Succeeds cp s.queue.metas s.next_cursor_id x
              × (s'.next_cursor_id ≡ x)
              × (s'.items ≡ s.items ++ due prev x)))

  serve-Moves :
      (cp prev x : ℕ) (s s0 : Scan)
      → s0.queue.metas ≡ s.queue.metas
      → s0.next_cursor_id ≡ s.next_cursor_id
      → s0.items ≡ s.items
      → Succeeds cp s.queue.metas s.next_cursor_id x
      → Moves cp prev s (left_by (serve crc32 t c req prev x s0))
  serve-Moves cp prev x s s0 m n i succ =
      let (q, moved) = serve_moves prev x s0 in
      (
        ap (λ (y : StoreMetaQueue). y.metas) q ∙ m,
        elim moved [
          | inl (n', i') ↦ inl (n' ∙ n, i' ∙ i)
          | inr (n', i') ↦ inr (x, succ, n', i' ∙ ap (λ (l : List QItem). l ++ due prev x) i)
        ],
      )

  began : ℕ → Scan → Scan
  began now s = record s {
    get_loop_start_ts = if s.get_loop_start_ts == 0 then now else s.get_loop_start_ts;
  }

  round-before :
      (cp prev now : ℕ) (s : Scan)
      → is_late crc32 t c req s now ≡ false
      → cp == no_cursor || leb cp s.next_cursor_id ≡ false
      → round crc32 t c req cp prev now s
        ≡ serve crc32 t c req prev (replayed crc32 t c req s.next_cursor_id) (began now s)
  unfolding round began
  round-before cp prev now s e before = rw (e, before)

  round-behind :
      (cp prev now : ℕ) (s : Scan) (m : StoreMeta) (pass : Bool)
      → is_late crc32 t c req s now ≡ false
      → cp == no_cursor || leb cp s.next_cursor_id ≡ true
      → (next crc32 s.queue (meta_of s.next_cursor_id)).0 ≡ some (m, pass)
      → round crc32 t c req cp prev now s
        ≡ serve crc32 t c req prev m.cursor_id
            (record (began now s) { queue = (next crc32 s.queue (meta_of s.next_cursor_id)).1 })
  unfolding round began
  round-behind cp prev now s m pass e behind found = rw (e, behind, found)

  round-Moves :
      (cp prev now : ℕ) (s : Scan)
      → cp ≤ no_cursor
      → IsAscending s.queue.metas
      → Moves cp prev s (left_by (round crc32 t c req cp prev now s))
  unfolding round began
  round-Moves cp prev now s le asc = elim (Bool-cases (is_late crc32 t c req s now)) [
    | inl late ↦ rw late (refl, inl (refl, refl))
    | inr e ↦
        let (least, metas) = next-handed crc32 s.queue (meta_of s.next_cursor_id) asc in
        elim (Bool-cases (cp == no_cursor || leb cp s.next_cursor_id)) [
          | inr before ↦
              let x = replayed crc32 t c req s.next_cursor_id in
              subst (λ r. Moves cp prev s (left_by r)) (sym (round-before cp prev now s e before))
                (serve-Moves cp prev x s (began now s) refl refl refl (
                  λ behind. ground (arith, before, behind),
                  λ b. replayed-IsNextStored cp s.next_cursor_id le b,
                ))
          | inl behind ↦ elim (Option-cases (next crc32 s.queue (meta_of s.next_cursor_id)).0) [
            | inl end ↦ rw (e, behind, end) (metas, inl (refl, refl))
            | inr ((m, pass), found) ↦
                let s0 = record (began now s) {
                  queue = (next crc32 s.queue (meta_of s.next_cursor_id)).1;
                } in
                subst (λ r. Moves cp prev s (left_by r))
                  (sym (round-behind cp prev now s m pass e behind found))
                  (serve-Moves cp prev m.cursor_id s s0 metas refl refl (
                    λ b. ap id_of (
                        first-unseen s.next_cursor_id s.queue.metas
                        ∙ sym least
                        ∙ handed_found (next crc32 s.queue (meta_of s.next_cursor_id)) m pass
                            found),
                    λ before. ground (arith, before, behind),
                  ))
          ]
        ]
  ]

  -- A list of cursors in which each is the one that comes after the one before it.
  abbrev pub Follows : ℕ → List StoreMeta → ℕ → List ℕ → Type 0
  Follows cp metas cur [] = Unit {0}
  Follows cp metas cur (x ∷ xs) = Succeeds cp metas cur x × Follows cp metas x xs

  -- What a stretch of the loop does, over the cursors that it passes.
  abbrev pub Delivers : ℕ → ℕ → Scan → Scan → List ℕ → Type 0
  Delivers cp prev s s' xs =
      Follows cp s.queue.metas s.next_cursor_id xs
      × (s'.queue.metas ≡ s.queue.metas)
      × (s'.next_cursor_id ≡ last_of s.next_cursor_id xs)
      × (s'.items ≡ s.items ++ due_all prev xs)

  stays-Delivers : (cp prev : ℕ) (s : Scan) → Delivers cp prev s s []
  stays-Delivers cp prev s = (tt, refl, refl, sym (append-nil s.items))

  moved-Delivers :
      (cp prev : ℕ) (s s' : Scan) → Moves cp prev s s' → (xs : List ℕ) × Delivers cp prev s s' xs
  moved-Delivers cp prev s s' (m, inl (n, i)) = ([], (tt, m, n, i ∙ sym (append-nil s.items)))
  moved-Delivers cp prev s s' (m, inr (x, succ, n, i)) = (
    x ∷ [],
    ((succ, tt), m, n, i ∙ ap (λ (l : List QItem). s.items ++ l) (sym (append-nil (due prev x)))),
  )

  move_start :
      (cp prev : ℕ) (s s' : Scan) (xs : List ℕ)
      → s'.queue.metas ≡ s.queue.metas
      → s'.next_cursor_id ≡ s.next_cursor_id
      → Follows cp s'.queue.metas s'.next_cursor_id xs
      → Follows cp s.queue.metas s.next_cursor_id xs
  move_start cp prev s s' xs m n f =
      subst (λ (y : List StoreMeta). Follows cp y s.next_cursor_id xs) m
        (subst (λ (y : ℕ). Follows cp s'.queue.metas y xs) n f)

  then-Delivers :
      (cp prev : ℕ) (s s' s'' : Scan) (xs : List ℕ)
      → Moves cp prev s s'
      → Delivers cp prev s' s'' xs
      → (ys : List ℕ) × Delivers cp prev s s'' ys
  then-Delivers cp prev s s' s'' xs (m, inl (n, i)) (f, q, l, d) = (
    xs,
    (
      move_start cp prev s s' xs m n f,
      q ∙ m,
      l ∙ ap (λ (y : ℕ). last_of y xs) n,
      d ∙ ap (λ (y : List QItem). y ++ due_all prev xs) i,
    ),
  )
  then-Delivers cp prev s s' s'' xs (m, inr (x, succ, n, i)) (f, q, l, d) = (
    x ∷ xs,
    (
      (
        succ,
        subst (λ (y : List StoreMeta). Follows cp y x xs) m
            (subst (λ (y : ℕ). Follows cp s'.queue.metas y xs) n f),
      ),
      q ∙ m,
      l ∙ ap (λ (y : ℕ). last_of y xs) n,
      d
          ∙ ap (λ (y : List QItem). y ++ due_all prev xs) i
          ∙ append_assoc s.items (due prev x) (due_all prev xs),
    ),
  )

  -- The loop of Get on a queue whose cursors ascend, with a checkpoint of 64 bits or none, however it
  -- ends: it passes cursors of which each is the one that comes after the one before it, the first
  -- after the cursor that it began with. After a cursor before the checkpoint that is the next instance
  -- of the log, or the least one that is still stored if that lies further on; after any other, or
  -- without a checkpoint, it is the least cursor of the queue beyond it. The cursor that the loop ends
  -- with is the last of them; it has added to the response all the items of these cursors that are due
  -- to the consumer group, in their order, and no other; and no cursor has left the queue.
  pub scan-Delivers :
      (left cp prev : ℕ) (clock : ℕ → ℕ) (s : Scan)
      → cp ≤ no_cursor
      → IsAscending s.queue.metas
      → (xs : List ℕ) × Delivers cp prev s (scan crc32 t c req left cp prev clock s).1 xs
  unfolding scan
  scan-Delivers zero cp prev clock s le asc = ([], stays-Delivers cp prev s)
  scan-Delivers (suc left) cp prev clock s le asc =
      let moved = round-Moves cp prev (clock left) s le asc in
      elim (Bool-cases (ltb (length s.items) req.limit)) [
        | inr full ↦ rw full ([], stays-Delivers cp prev s)
        | inl more ↦ elim (Round-cases (round crc32 t c req cp prev (clock left) s)) [
          | inl (s', e) ↦
              let moved' : Moves cp prev s s' = rw e at moved in
              let asc' = subst IsAscending (sym moved'.0) asc in
              let (xs, rest) = scan-Delivers left cp prev clock s' le asc' in
              rw (more, e)
                (then-Delivers cp prev s s' (scan crc32 t c req left cp prev clock s').1 xs moved'
                  rest)
          | inr (inl (s', e)) ↦ rw (more, e) (moved-Delivers cp prev s s' (rw e at moved))
          | inr (inr (ret, s', e)) ↦ rw (more, e) (moved-Delivers cp prev s s' (rw e at moved))
        ]
      ]
