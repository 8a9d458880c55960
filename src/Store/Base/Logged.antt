-- ===== src/Store/Base/Logged.antt =====
-- What the log holds for a queue, and what `GetItemsByCursorID` reads of it.
use phxqueue.Common.{
  ℕ, ◌≡◌, refl, ◌⊎◌, inl, inr, Bool, true, Option, none, some, List, [], ◌∷◌, ◌++◌, arith, ◌==◌,
  if◌then◌else◌, Option-cases, map,
}
use phxqueue.Common.RetCode.{is_ok}
use phxqueue.Common.Int.{ℤ, pos, negsuc, eqb_ℤ}
use phxqueue.Store.Base.{
  AddRequest, BatchValue, InstanceValue, chosen, not_exist, not_chosen_yet, other_failure,
  same_queue, taken, collect, QItem, Chosen, wanted, get_items_by_cursor_id,
}

-- Those that are not to be skipped.
abbrev pub picked : (QItem → Bool) → List QItem → List QItem
picked skip [] = []
picked skip (x ∷ xs) = (if skip x then [] else x ∷ []) ++ picked skip xs

pub wanted-picked : (skip : QItem → Bool) (xs : List QItem) → wanted skip xs ≡ picked skip xs
wanted-picked skip [] = refl
wanted-picked skip (x ∷ xs) = ground (arith, wanted-picked skip xs)

-- The items that a request adds to a queue, under the cursor of its instance.
abbrev pub items_for : ℤ → ℕ → Option AddRequest → List QItem
items_for queue_id cur none = []
items_for queue_id cur (some req) =
    if eqb_ℤ queue_id req.queue_id
    then map (λ (x : QItem). record x { cursor_id = cur }) req.items
    else []

-- The items that the log has for a queue at an instance: those of the store's requests for the queue.
abbrev pub items_of : ℤ → ℕ → List BatchValue → List QItem
items_of queue_id cur [] = []
items_of queue_id cur (v ∷ vs) =
    (if v.sm_id == 1 then items_for queue_id cur v.add_req else []) ++ items_of queue_id cur vs

abbrev pub logged : Chosen → ℤ → ℕ → List QItem
logged c queue_id cur = elim (c.instance_value cur) [
  | chosen values ↦ items_of queue_id cur values
  | _ ↦ []
]

same_queue-eqb_ℤ : (a b : ℤ) → same_queue a b ≡ eqb_ℤ a b
same_queue-eqb_ℤ (pos a) (pos b) = refl
same_queue-eqb_ℤ (negsuc a) (negsuc b) = refl
same_queue-eqb_ℤ (pos a) (negsuc b) = refl
same_queue-eqb_ℤ (negsuc a) (pos b) = refl

taken-items :
    (queue_id : ℤ) (cur : ℕ) (v : BatchValue) (xs : List QItem)
    → taken queue_id cur v ≡ some xs
    → xs ≡ (if v.sm_id == 1 then items_for queue_id cur v.add_req else [])
unfolding taken
taken-items queue_id cur v xs h = ground (arith, same_queue-eqb_ℤ queue_id, h)

collect-items_of :
    (queue_id : ℤ) (cur : ℕ) (vs : List BatchValue)
    → is_ok (collect queue_id cur vs).0 ≡ true
    → (collect queue_id cur vs).1 ≡ items_of queue_id cur vs
unfolding collect
collect-items_of queue_id cur [] h = refl
collect-items_of queue_id cur (v ∷ vs) h = elim (Option-cases (taken queue_id cur v)) [
  | inl bad ↦ absurd (ground (arith, h, bad))
  | inr (xs, e) ↦
      ground (arith, h, e, taken-items queue_id cur v xs e, collect-items_of queue_id cur vs)
]

Instance-cases :
    (v : InstanceValue)
    → ((values : List BatchValue) × (v ≡ chosen values))
      ⊎ ((v ≡ not_exist) ⊎ ((v ≡ not_chosen_yet) ⊎ (v ≡ other_failure)))
Instance-cases (chosen values) = inl (values, refl)
Instance-cases not_exist = inr (inl refl)
Instance-cases not_chosen_yet = inr (inr (inl refl))
Instance-cases other_failure = inr (inr (inr refl))

pub get_items-logged :
    (c : Chosen) (queue_id : ℤ) (cur : ℕ)
    → is_ok (get_items_by_cursor_id c queue_id cur).0 ≡ true
    → (get_items_by_cursor_id c queue_id cur).1 ≡ logged c queue_id cur
unfolding get_items_by_cursor_id
get_items-logged c queue_id cur h = elim (Instance-cases (c.instance_value cur)) [
  | inl (values, e) ↦ ground (arith, e, h, collect-items_of queue_id cur values)
  | inr (inl e) ↦ ground (arith, e)
  | inr (inr (inl e)) ↦ absurd (ground (arith, h, e))
  | inr (inr (inr e)) ↦ absurd (ground (arith, h, e))
]
