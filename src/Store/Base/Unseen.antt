-- ===== src/Store/Base/Unseen.antt =====
-- The loop of `Get` where the group has no checkpoint, and the cursors that are left.
use phxqueue.Common.{
  ℕ, ◌<◌, ◌≡◌, refl, sym, ap, ◌∙◌, subst, inl, inr, some, List, [], ◌∷◌, ◌++◌, arith, ◌==◌,
  Bool-cases,
}
use phxqueue.Store.Meta.{StoreMeta, no_cursor, first, meta_of, upper_bound}
use phxqueue.Store.Meta.Order.{IsAscending}
use phxqueue.Store.Meta.Erase.{upper_bound-keep}
use phxqueue.Store.Meta.Drain.{upper_bound-next, upper_bound-head}
use phxqueue.Store.Base.{GetRequest, Topic, Chosen, Scan, scan}
use phxqueue.Store.Base.Deliver.{id_of, unseen, last_of, due_all, Follows, scan-Delivers}

abbrev pub ids : List StoreMeta → List ℕ
ids [] = []
ids (m ∷ ms) = m.cursor_id ∷ ids ms

first-id :
    (xs : List StoreMeta) (x : ℕ)
    → id_of (first xs) ≡ some x
    → (y : StoreMeta) × (ys : List StoreMeta) × (xs ≡ y ∷ ys) × (y.cursor_id ≡ x)
unfolding first
first-id [] x h = cc
first-id (y ∷ ys) x h = (y, ys, refl, ground (arith, h))

unseen_beyond :
    (y : StoreMeta) (metas : List StoreMeta)
    → IsAscending metas
    → y.cursor_id < no_cursor
    → unseen y.cursor_id metas ≡ upper_bound y metas
unseen_beyond y metas asc real = ground (arith, upper_bound-keep y metas asc)

-- The head of an ascending list, and what is beyond it.
upper_bound-whole :
    (metas : List StoreMeta) (y : StoreMeta) (ys : List StoreMeta)
    → IsAscending metas
    → metas ≡ y ∷ ys
    → (y.cursor_id < no_cursor) × (upper_bound y metas ≡ ys)
upper_bound-whole metas y ys asc e =
    let asc' = subst IsAscending e asc in
    (
      asc'.0,
      subst (λ (l : List StoreMeta). upper_bound y l ≡ ys) (sym e) (upper_bound-head y ys asc'.1),
    )

unseen-tail :
    (cur : ℕ) (metas : List StoreMeta) (y : StoreMeta) (ys : List StoreMeta)
    → IsAscending metas
    → unseen cur metas ≡ y ∷ ys
    → (y.cursor_id < no_cursor) × (upper_bound y metas ≡ ys)
unseen-tail cur metas y ys asc e = elim (Bool-cases (cur == no_cursor)) [
  | inl start ↦ upper_bound-whole metas y ys asc (rw start at e)
  | inr real ↦
      upper_bound-next (meta_of cur) metas y ys asc
        (upper_bound-keep (meta_of cur) metas asc ∙ (rw real at e))
]

unseen-next :
    (cur x : ℕ) (metas : List StoreMeta)
    → IsAscending metas
    → id_of (first (unseen cur metas)) ≡ some x
    → ids (unseen cur metas) ≡ x ∷ ids (unseen x metas)
unseen-next cur x metas asc h =
    let (y, ys, e, i) = first-id (unseen cur metas) x h in
    let (real, rest) = unseen-tail cur metas y ys asc e in
    let after : unseen x metas ≡ ys =
      subst (λ (n : ℕ). unseen n metas ≡ ys) i (unseen_beyond y metas asc real ∙ rest) in
    ap ids e ∙ rw (after, i)

module _ (crc32 : ℕ → ℕ → ℕ) (t : Topic) (c : Chosen) (req : GetRequest) where
  Follows-unseen :
      (metas : List StoreMeta) (cur : ℕ) (xs : List ℕ)
      → IsAscending metas
      → Follows crc32 t c req no_cursor metas cur xs
      → ids (unseen cur metas) ≡ xs ++ ids (unseen (last_of cur xs) metas)
  Follows-unseen metas cur [] asc h = refl
  Follows-unseen metas cur (x ∷ xs) asc h =
      unseen-next cur x metas asc (h.0.0 refl)
      ∙ ap (λ (l : List ℕ). x ∷ l) (Follows-unseen metas x xs asc h.1)

  -- The loop of Get where the group has no checkpoint, on a queue whose cursors ascend, however it
  -- ends: the cursors of the queue beyond the one that it began with are the ones that it has passed,
  -- followed by those beyond the one that it ends with; and it has added to the response the items of
  -- the cursors that it has passed, as far as they are due to the consumer group, and no other. So a
  -- client that goes on from there misses no cursor and gets none twice.
  pub scan-unseen :
      (left prev : ℕ) (clock : ℕ → ℕ) (s : Scan)
      → IsAscending s.queue.metas
      → let s' = (scan crc32 t c req left no_cursor prev clock s).1 in
        (xs : List ℕ) × (ids (unseen s.next_cursor_id s.queue.metas)
          ≡ xs ++ ids (unseen s'.next_cursor_id s'.queue.metas))
        × (s'.items ≡ s.items ++ due_all crc32 t c req prev xs)
  scan-unseen left prev clock s asc =
      let (xs, (f, q, l, i)) =
        scan-Delivers crc32 t c req left no_cursor prev clock s (omega arith) asc in
      (
        xs,
        Follows-unseen s.queue.metas s.next_cursor_id xs asc f
            ∙ ap (λ (n : ℕ). xs ++ ids (unseen n s.queue.metas)) (sym l)
            ∙ ap
                (λ (ms : List StoreMeta).
                  xs
                  ++ ids
                      (unseen (scan crc32 t c req left no_cursor prev clock s).1.next_cursor_id ms))
                (sym q),
        i,
      )
