-- ===== src/Store/Sync/Adjust.antt =====
-- What `AdjustNextCursorID` tells a consumer to go on from.
use phxqueue.Common.{ℕ, ◌≤◌, ◌≡◌, refl, ◌≢◌, true, false, ◌⊎◌, inl, inr, arith, Bool-cases}
use phxqueue.Common.Int.{pos}
use phxqueue.Common.RetCode.{RetCode, ret_ok, ret_err_cursor_not_found}
use phxqueue.Store.Meta.{no_cursor}
use phxqueue.Store.Sync.{
  SyncCtrl, Item, magic, has_prev, is_stale, catch_up, adjust_item, item_at, adjust_next_cursor_id,
}
use phxqueue.Store.Sync.Slots.{InRange, bad_ids-InRange}

-- The client's position is the one that the server remembers giving it.
abbrev pub InTouch : Item → ℕ → ℕ → Type 0
InTouch i prev next =
    (i.next_magic ≡ magic) × (i.next_cursor_id ≡ next) × ((prev ≡ no_cursor) ⊎ (prev ≤ next))

-- The later of the client's acknowledged cursor and the server's, where `-1` is before all.
abbrev pub IsLatestAck : Item → ℕ → ℕ → Type 0
IsLatestAck i prev p =
    ((p ≡ prev) × ((i.prev_magic ≢ magic) ⊎ ((prev ≢ no_cursor) × (i.prev_cursor_id ≤ prev))))
    ⊎ ((p ≡ i.prev_cursor_id)
        × (i.prev_magic ≡ magic)
        × ((prev ≡ no_cursor) ⊎ (prev ≤ i.prev_cursor_id)))

-- The three outcomes of an adjustment of the cursors `prev` and `next` to a slot.
abbrev pub Adjusts : Item → ℕ → ℕ → RetCode × ℕ × ℕ → Type 0
Adjusts i prev next (ret, p, n) =
    (InTouch i prev next × (ret ≡ ret_ok) × (n ≡ next) × IsLatestAck i prev p)
    ⊎ ((¬ InTouch i prev next)
        × (((i.prev_magic ≡ magic)
              × (ret ≡ ret_ok)
              × (n ≡ i.prev_cursor_id)
              × (p ≡ i.prev_cursor_id))
            ⊎ ((i.prev_magic ≢ magic)
                × (ret ≡ ret_err_cursor_not_found)
                × (n ≡ next)
                × (p ≡ prev))))

catch_up-IsLatestAck : (i : Item) (prev : ℕ) → IsLatestAck i prev (catch_up i prev)
unfolding catch_up
catch_up-IsLatestAck i prev = ground arith

ack_self : (i : Item) → catch_up i i.prev_cursor_id ≡ i.prev_cursor_id
unfolding catch_up
ack_self i = ground arith

stale_cases :
    (i : Item) (prev next : ℕ)
    → ((is_stale i prev next ≡ false) × InTouch i prev next)
      ⊎ ((is_stale i prev next ≡ true) × (¬ InTouch i prev next))
unfolding is_stale
stale_cases i prev next = elim (Bool-cases (is_stale i prev next)) [
  | inl e ↦ inr (e, λ t. ground arith)
  | inr e ↦ inl (e, ground arith)
]

adjust_item-Adjusts : (i : Item) (prev next : ℕ) → Adjusts i prev next (adjust_item i prev next)
unfolding adjust_item
adjust_item-Adjusts i prev next = elim (stale_cases i prev next) [
  | inl (e, t) ↦ rw e (inl (t, refl, refl, catch_up-IsLatestAck i prev))
  | inr (e, t) ↦ elim (Bool-cases (has_prev i)) [
    | inl f ↦ rw (e, f) (inr (t, inl (ground arith, refl, refl, ack_self i)))
    | inr f ↦ rw (e, f) (inr (t, inr (ground arith, refl, refl, refl)))
  ]
]

-- AdjustNextCursorID on a queue and a consumer group in range. If the next cursor that comes is the
-- one last given to the group and the acknowledged one is not beyond it, the group goes on from there,
-- with the later of the two acknowledged cursors. Otherwise both cursors go back to what the group
-- has acknowledged, so that everything after it is handed out again; if it has acknowledged nothing,
-- the cursors stay and the code says that no cursor was found.
pub adjust_next_cursor_id-Adjusts :
    (s : SyncCtrl) (g q prev next : ℕ)
    → InRange s g q
    → Adjusts
        (item_at s (pos g) (pos q))
        prev
        next
        (adjust_next_cursor_id s (pos g) (pos q) prev next)
unfolding adjust_next_cursor_id
adjust_next_cursor_id-Adjusts s g q prev next r =
    rw (bad_ids-InRange s g q r) (adjust_item-Adjusts (item_at s (pos g) (pos q)) prev next)
