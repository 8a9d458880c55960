-- ===== src/Store/Base/Added.antt =====
-- `Add` and the queue that it pushes to.
use phxqueue.Common.{
  ℕ, ◌<◌, ◌≡◌, refl, sym, ap, ◌∙◌, subst, ◌≢◌, ◌⊎◌, inl, inr, true, false, List, [], ◌∷◌, ◌++◌,
  arith, length, get_elem?-set_self, Bool-cases, All,
}
use phxqueue.Common.Int.{ℤ, pos}
use phxqueue.Common.RetCode.{RetCode, ret_ok, is_ok}
use phxqueue.Store.Meta.{StoreMeta, StoreMetaQueue, no_cursor, meta_of, back, push_back}
use phxqueue.Store.Meta.Order.{IsAscending, push_back-Pushes}
use phxqueue.Store.Base.{
  AddRequest, Topic, no_items, queue_at, put_queue, at_or_beyond, need_skip_add, add,
}

-- A queue that was put back is read there.
queue_at-put_queue :
    (qs : List StoreMetaQueue) (q : ℕ) (x : StoreMetaQueue)
    → q < length qs
    → queue_at (put_queue qs (pos q) x) (pos q) ≡ x
queue_at-put_queue qs q x h = rw (get_elem?-set_self qs q x h)

need_skip_add-back :
    (t : Topic) (qs : List StoreMetaQueue) (cursor : ℕ) (req : AddRequest)
    → need_skip_add t qs cursor req ≡ false
    → at_or_beyond (back (queue_at qs req.queue_id)) cursor ≡ false
unfolding need_skip_add
need_skip_add-back t qs cursor req h = ground arith

-- A push of a real cursor that is beyond the back one is done.
pushed_beyond :
    (crc32 : ℕ → ℕ → ℕ) (q : StoreMetaQueue) (cursor : ℕ)
    → IsAscending q.metas
    → cursor ≢ no_cursor
    → at_or_beyond (back q) cursor ≡ false
    → All (λ x. x.cursor_id < cursor) q.metas
      × (b : StoreMeta) × (b.cursor_id ≡ cursor)
      × ((push_back crc32 q (meta_of cursor)).1.metas ≡ q.metas ++ b ∷ [])
unfolding back
pushed_beyond crc32 q cursor asc real h = elim (push_back-Pushes crc32 q (meta_of cursor) asc) [
  | inl (done, below, b, e, m, l) ↦ (below, b, e, m)
  | inr (failed, same, why) ↦
      absurd (elim why [ inl e ↦ real e | inr (b, e, le) ↦ ground (arith, e, le, h) ])
]

abbrev pushed_queues : (ℕ → ℕ → ℕ) → List StoreMetaQueue → ℕ → AddRequest → List StoreMetaQueue
pushed_queues crc32 qs cursor req =
    put_queue qs req.queue_id (push_back crc32 (queue_at qs req.queue_id) (meta_of cursor)).1

not_ok : (r : RetCode) → is_ok r ≡ false → r ≢ ret_ok
not_ok r h e = cc (sym (ap is_ok e) ∙ h)

add-accepted :
    (crc32 : ℕ → ℕ → ℕ) (t : Topic) (qs : List StoreMetaQueue) (cursor : ℕ) (req : AddRequest)
    → ((add crc32 t qs cursor req ≡ (ret_ok, pushed_queues crc32 qs cursor req))
        × (no_items req.items ≡ false)
        × (need_skip_add t qs cursor req ≡ false))
      ⊎ (((add crc32 t qs cursor req).1 ≡ qs)
          × ((no_items req.items ≡ true) ⊎ ((add crc32 t qs cursor req).0 ≢ ret_ok)))
unfolding add
add-accepted crc32 t qs cursor req = elim (Bool-cases (is_ok t.topic_config)) [
  | inr e ↦ rw e (inr (refl, inr (not_ok t.topic_config e)))
  | inl e ↦ elim (Bool-cases (is_ok (t.queue_info req.queue_id))) [
    | inr f ↦ rw (e, f) (inr (refl, inr (not_ok (t.queue_info req.queue_id) f)))
    | inl f ↦ elim (Bool-cases (no_items req.items)) [
      | inl g ↦ rw (e, f, g) (inr (refl, inl refl))
      | inr g ↦ elim (Bool-cases (need_skip_add t qs cursor req)) [
        | inl h ↦ rw (e, f, g, h) (inr (refl, inr (λ bad. ground (arith, bad))))
        | inr h ↦ rw (e, f, g, h) (inl (refl, refl, refl))
      ]
    ]
  ]
]

-- Add of a request to a queue in range, whose cursors ascend, for a real cursor. Where it says RET_OK and
-- the request has items, the queue has got that cursor at its end, beyond all others: an item whose
-- value was chosen is never taken for added while it is not. In every other case the queues are as
-- they were, and the code is not RET_OK or the request has no items.
pub add-appends :
    (crc32 : ℕ → ℕ → ℕ) (t : Topic) (qs : List StoreMetaQueue) (cursor q : ℕ) (req : AddRequest)
    → req.queue_id ≡ pos q
    → q < length qs
    → IsAscending (queue_at qs (pos q)).metas
    → cursor ≢ no_cursor
    → let (ret, qs') = add crc32 t qs cursor req in
      ((ret ≡ ret_ok)
        × (no_items req.items ≡ false)
        × All (λ x. x.cursor_id < cursor) (queue_at qs (pos q)).metas
        × (b : StoreMeta) × (b.cursor_id ≡ cursor)
        × ((queue_at qs' (pos q)).metas ≡ (queue_at qs (pos q)).metas ++ b ∷ []))
      ⊎ ((qs' ≡ qs) × ((no_items req.items ≡ true) ⊎ (ret ≢ ret_ok)))
add-appends crc32 t qs cursor q req eq lt asc real = elim (add-accepted crc32 t qs cursor req) [
  | inr (same, why) ↦ inr (same, why)
  | inl (done, items, new) ↦
      let back_new : at_or_beyond (back (queue_at qs (pos q))) cursor ≡ false =
        subst (λ (i : ℤ). at_or_beyond (back (queue_at qs i)) cursor ≡ false) eq
          (need_skip_add-back t qs cursor req new) in
      let (below, b, e, m) = pushed_beyond crc32 (queue_at qs (pos q)) cursor asc real back_new in
      let put_back : queue_at (pushed_queues crc32 qs cursor req) (pos q)
          ≡ (push_back crc32 (queue_at qs (pos q)) (meta_of cursor)).1 =
        rw eq
          (queue_at-put_queue qs q (push_back crc32 (queue_at qs (pos q)) (meta_of cursor)).1 lt) in
      inl (
        ap (λ (p : RetCode × List StoreMetaQueue). p.0) done,
        items,
        below,
        b,
        e,
        ap (λ (p : RetCode × List StoreMetaQueue). (queue_at p.1 (pos q)).metas) done
            ∙ ap (λ (x : StoreMetaQueue). x.metas) put_back
            ∙ m,
      )
]
