-- ===== src/Store/Sync/Slots.antt =====
-- The slots of the pairs of a queue and a consumer group, written and read.
use native.Mathlib.Decide.{ℕ_discrete}
use phxqueue.Common.{
  ℕ, ◌+◌, ◌-◌, ◌*◌, ◌≤◌, ◌<◌, ◌≡◌, refl, ap, subst, ◌∙◌, Bool, true, false, inl, inr, arith, length,
  length-set, get_elem?-set_self, get_elem?-set_ne, ltb, Bool-cases, tests, ltb→lt,
}
use phxqueue.Common.Int.{pos, negsuc}
use phxqueue.Common.RetCode.{ret_ok}
use phxqueue.Store.Sync.{
  SyncCtrl, Item, get_idx, bad_ids, item_at, put_item, updated, update_cursor_id, read_item,
  get_cursor_id,
}

-- The file has a slot for each pair.
abbrev pub IsSized : SyncCtrl → Type 0
IsSized s = length s.buf ≡ s.nqueue * s.nconsumer_group

-- A consumer group of 1 to nconsumer_group, and a queue below nqueue.
abbrev pub InRange : SyncCtrl → ℕ → ℕ → Type 0
InRange s group queue = (0 < group) × (group ≤ s.nconsumer_group) × (queue < s.nqueue)

get_idx-pos : (n g q : ℕ) → 0 < g → get_idx n (pos g) (pos q) ≡ q * n + g - 1
unfolding get_idx
get_idx-pos n g q h = ground arith

get_idx-lt :
    (s : SyncCtrl) (g q : ℕ)
    → IsSized s
    → InRange s g q
    → get_idx s.nconsumer_group (pos g) (pos q) < length s.buf
get_idx-lt s g q z r = rw (get_idx-pos s.nconsumer_group g q r.0, z) (grind arith)

mul-step : (n q r : ℕ) → q < r → q * n + n ≤ r * n
mul-step n q r h = grind arith

same_group : (n g h q r : ℕ) → 0 < g → 0 < h → q ≡ r → q * n + g - 1 ≡ r * n + h - 1 → g ≡ h
same_group n g h q r g0 h0 same e = omega (arith, ap (λ (k : ℕ). k * n) same)

slot_injective :
    (n g h q r : ℕ)
    → 0 < g
    → g ≤ n
    → 0 < h
    → h ≤ n
    → q * n + g - 1 ≡ r * n + h - 1
    → (g ≡ h) × (q ≡ r)
slot_injective n g h q r g0 gn h0 hn e = elim (Bool-cases (ltb q r)) [
  | inl lt ↦ absurd (omega (tests, mul-step n q r (ltb→lt q r lt)))
  | inr ge ↦ elim (Bool-cases (ltb r q)) [
    | inl lt ↦ absurd (omega (tests, mul-step n r q (ltb→lt r q lt)))
    | inr le ↦ let same : q ≡ r = ground arith in (same_group n g h q r g0 h0 same e, same)
  ]
]

pub bad_ids-InRange : (s : SyncCtrl) (g q : ℕ) → InRange s g q → bad_ids s (pos g) (pos q) ≡ false
unfolding bad_ids
bad_ids-InRange s g q r = ground arith

pub item_at-put_self :
    (s : SyncCtrl) (g q : ℕ) (i : Item)
    → IsSized s
    → InRange s g q
    → item_at (put_item s (pos g) (pos q) i) (pos g) (pos q) ≡ i
unfolding item_at put_item
item_at-put_self s g q i z r =
    rw (
      get_elem?-set_self s.buf (get_idx s.nconsumer_group (pos g) (pos q)) i (get_idx-lt s g q z r))

item_at-put_other :
    (s : SyncCtrl) (g h q r : ℕ) (i : Item)
    → InRange s g q
    → InRange s h r
    → ((g ≡ h) × (q ≡ r) → ⊥)
    → item_at (put_item s (pos g) (pos q) i) (pos h) (pos r) ≡ item_at s (pos h) (pos r)
unfolding item_at put_item
item_at-put_other s g h q r i a b ne = rw (get_elem?-set_ne s.buf i (λ e. ne (slots_equal e)))
  where
    slots_equal :
        get_idx s.nconsumer_group (pos g) (pos q) ≡ get_idx s.nconsumer_group (pos h) (pos r)
        → (g ≡ h) × (q ≡ r)
    slots_equal e = slot_injective s.nconsumer_group g h q r a.0 a.1 b.0 b.1 (
        omega (arith, get_idx-pos s.nconsumer_group g q a.0, get_idx-pos s.nconsumer_group h r b.0))

pub put_item-IsSized :
    (s : SyncCtrl) (g q : ℕ) (i : Item) → IsSized s → IsSized (put_item s (pos g) (pos q) i)
unfolding put_item
put_item-IsSized s g q i z = length-set s.buf (get_idx s.nconsumer_group (pos g) (pos q)) i ∙ z

put_item-bad_ids :
    (s : SyncCtrl) (g q h r : ℕ) (i : Item)
    → InRange s h r
    → bad_ids (put_item s (pos g) (pos q) i) (pos h) (pos r) ≡ false
unfolding put_item
put_item-bad_ids s g q h r i b = bad_ids-InRange (put_item s (pos g) (pos q) i) h r b

read-updated : (i : Item) (c : ℕ) (side : Bool) → read_item (updated i c side) side ≡ (ret_ok, c)
unfolding updated read_item
read-updated i c true = refl
read-updated i c false = refl

read-updated_ne :
    (i : Item) (c : ℕ) (side other : Bool)
    → (side ≡ other → ⊥)
    → read_item (updated i c side) other ≡ read_item i other
unfolding updated read_item
read-updated_ne i c true true ne = absurd (ne refl)
read-updated_ne i c true false ne = refl
read-updated_ne i c false true ne = refl
read-updated_ne i c false false ne = absurd (ne refl)

read_other :
    (s : SyncCtrl) (g q h r c : ℕ) (side other : Bool)
    → IsSized s
    → InRange s g q
    → InRange s h r
    → ((g ≡ h) × (q ≡ r) × (side ≡ other) → ⊥)
    → let i = updated (item_at s (pos g) (pos q)) c side in
      read_item (item_at (put_item s (pos g) (pos q) i) (pos h) (pos r)) other
      ≡ read_item (item_at s (pos h) (pos r)) other
read_other s g q h r c side other z a b ne =
    let i = updated (item_at s (pos g) (pos q)) c side in
    elim (ℕ_discrete g h) [
      | yes eg ↦ elim (ℕ_discrete q r) [
        | yes eq ↦
            subst
              (λ (p : ℕ × ℕ).
                read_item (item_at (put_item s (pos g) (pos q) i) (pos p.0) (pos p.1)) other
                ≡ read_item (item_at s (pos p.0) (pos p.1)) other)
              (λ k. (eg k, eq k))
              (rw (item_at-put_self s g q i z a)
                (read-updated_ne (item_at s (pos g) (pos q)) c side other (λ e. ne (eg, eq, e))))
        | no nq ↦ rw (item_at-put_other s g h q r i a b (λ e. nq e.1))
      ]
      | no ng ↦ rw (item_at-put_other s g h q r i a b (λ e. ng e.0))
    ]

-- UpdateCursorID at a queue and a consumer group in range succeeds, keeps the file's size, and
-- GetCursorID then finds that cursor there, on the side that was written.
pub get-update_self :
    (s : SyncCtrl) (g q c : ℕ) (side : Bool)
    → IsSized s
    → InRange s g q
    → let (ret, s') = update_cursor_id s (pos g) (pos q) c side in
      (ret ≡ ret_ok) × IsSized s' × (get_cursor_id s' (pos g) (pos q) side ≡ (ret_ok, c))
unfolding update_cursor_id get_cursor_id
get-update_self s g q c side z r =
    let i = updated (item_at s (pos g) (pos q)) c side in
    let s' = put_item s (pos g) (pos q) i in
    let sized : IsSized s' = put_item-IsSized s g q i z in
    let kept : bad_ids s' (pos g) (pos q) ≡ false = put_item-bad_ids s g q g q i r in
    rw (bad_ids-InRange s g q r)
      (refl, sized, rw (kept, item_at-put_self s g q i z r) (read-updated _ c side))

-- Nothing else changes: the other side of the slot, and both sides of every other slot in range.
pub get-update_other :
    (s : SyncCtrl) (g q h r c : ℕ) (side other : Bool)
    → IsSized s
    → InRange s g q
    → InRange s h r
    → ((g ≡ h) × (q ≡ r) × (side ≡ other) → ⊥)
    → get_cursor_id (update_cursor_id s (pos g) (pos q) c side).1 (pos h) (pos r) other
      ≡ get_cursor_id s (pos h) (pos r) other
unfolding update_cursor_id get_cursor_id
get-update_other s g q h r c side other z a b ne =
    let i = updated (item_at s (pos g) (pos q)) c side in
    rw (bad_ids-InRange s g q a, put_item-bad_ids s g q h r i b, bad_ids-InRange s h r b)
      (read_other s g q h r c side other z a b ne)

-- A negative consumer group passes the test of the arguments, and its slot is that of another group
-- in an earlier queue: group -1 - k in queue q + 1 shares the slot of group n - 1 - k in queue q.
pub negative_group_aliases :
    (s : SyncCtrl) (k q : ℕ)
    → k + 1 < s.nconsumer_group
    → q + 1 < s.nqueue
    → (bad_ids s (negsuc k) (pos (q + 1)) ≡ false)
      × InRange s (s.nconsumer_group - 1 - k) q
      × (get_idx s.nconsumer_group (negsuc k) (pos (q + 1))
          ≡ get_idx s.nconsumer_group (pos (s.nconsumer_group - 1 - k)) (pos q))
unfolding bad_ids get_idx
negative_group_aliases s k q h r = (ground arith, omega arith, grind arith)
