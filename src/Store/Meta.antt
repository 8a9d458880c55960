-- ===== src/Store/Meta.antt =====
-- phxqueue/store/storemeta.cpp: a cursor of the queue with its checksum, and the ordered set of
-- cursors. `std::set<StoreMeta>` is the list of its elements in ascending order; an iterator is the
-- rest of the list from that position on, so `[]` is `end()`.
pub mod Order
pub mod Erase
pub mod Count
pub mod Drain
pub mod Chain
pub mod Forward
mod Tests
use phxqueue.Common.{
  ℕ, ◌+◌, ◌-◌, ◌%◌, ◌≡◌, Bool, true, false, ◌&&◌, ◌||◌, not, Option, none, some, List, [], ◌∷◌,
  ◌++◌, ltb, leb, ◌==◌, if◌then◌else◌, length,
}
use phxqueue.Common.Int.{ℤ, pos, negsuc}

-- UINT64_MAX, which the code also writes `-1`: no cursor.
abbrev pub no_cursor : ℕ
no_cursor = 18_446_744_073_709_551_615

-- 2^32. The index is an `int`; its 32-bit pattern is kept, and the addition of one wraps.
abbrev pub int_mod : ℕ
int_mod = 4_294_967_296

pub record StoreMeta : Type 0 where
  pub cursor_id : ℕ
  pub index : ℕ
  pub crc : ℕ

abbrev pub empty_meta : StoreMeta
empty_meta = record { cursor_id = no_cursor; index = 0; crc = 0 }

-- `StoreMeta(cursor_id)`.
abbrev pub meta_of : ℕ → StoreMeta
meta_of c = record { cursor_id = c; index = 0; crc = 0 }

-- `StoreMeta::operator<`.
abbrev pub meta_less : StoreMeta → StoreMeta → Bool
meta_less m n = ltb m.cursor_id n.cursor_id

abbrev pub set_index : StoreMeta → ℕ → StoreMeta
set_index m i = record m { index = i }

-- `crc32` is zlib's: the checksum of the eight bytes of a cursor, after a previous checksum.
abbrev pub update_crc : (ℕ → ℕ → ℕ) → StoreMeta → ℕ → StoreMeta
update_crc crc32 m pre = if m.crc == 0 then record m { crc = crc32 pre m.cursor_id } else m

abbrev pub check_crc : (ℕ → ℕ → ℕ) → StoreMeta → ℕ → Bool
check_crc crc32 m pre = m.crc == crc32 pre m.cursor_id

pub record StoreMetaQueue : Type 0 where
  pub metas : List StoreMeta
  pub last_dequeue_meta : StoreMeta

abbrev pub empty_queue : StoreMetaQueue
empty_queue = record { metas = []; last_dequeue_meta = empty_meta }

-- `std::set::upper_bound`: from the first element that is greater than `m`.
unfoldable pub upper_bound : StoreMeta → List StoreMeta → List StoreMeta
upper_bound m [] = []
upper_bound m (x ∷ xs) = if meta_less m x then x ∷ xs else upper_bound m xs

-- `std::set::lower_bound`: from the first element that is not less than `m`.
pub lower_bound : StoreMeta → List StoreMeta → List StoreMeta
lower_bound m [] = []
lower_bound m (x ∷ xs) = if meta_less x m then lower_bound m xs else x ∷ xs

-- `std::set::insert`: at its place, unless an equal element is there.
pub insert_meta : StoreMeta → List StoreMeta → List StoreMeta
insert_meta m [] = m ∷ []
insert_meta m (x ∷ xs) =
    if meta_less m x then m ∷ x ∷ xs else if meta_less x m then x ∷ insert_meta m xs else x ∷ xs

-- `*begin()`, and `*rbegin()`.
unfoldable pub first : List StoreMeta → Option StoreMeta
first [] = none
first (x ∷ xs) = some x

unfoldable pub last : List StoreMeta → Option StoreMeta
last [] = none
last (x ∷ []) = some x
last (x ∷ y ∷ ys) = last (y ∷ ys)

-- The last cursor handed out moves forward only.
unfoldable pub advance : StoreMeta → StoreMeta → StoreMeta
advance old m = if old.cursor_id == no_cursor || meta_less old m then m else old

-- The checksum is tested only when the next cursor lies beyond the last one handed out.
unfoldable pub crc_pass : (ℕ → ℕ → ℕ) → StoreMeta → StoreMeta → Bool
crc_pass crc32 old m =
    if not (old.cursor_id == no_cursor) && meta_less old m then check_crc crc32 m old.crc else true

-- What `Next` does once its iterator stands: at the end it fails.
unfoldable pub next_at :
    (ℕ → ℕ → ℕ) → List StoreMeta → StoreMetaQueue → Option (StoreMeta × Bool) × StoreMetaQueue
unfolding advance crc_pass
next_at crc32 [] q = (none, q)
next_at crc32 (m ∷ _) q = (
  some (m, crc_pass crc32 q.last_dequeue_meta m),
  record q { last_dequeue_meta = advance q.last_dequeue_meta m },
)

-- `StoreMetaQueue::Next`: the next cursor, whether its checksum passes, and the queue.
unfoldable pub next :
    (ℕ → ℕ → ℕ) → StoreMetaQueue → StoreMeta → Option (StoreMeta × Bool) × StoreMetaQueue
unfolding next_at
next crc32 q m =
    if m.cursor_id == no_cursor
    then next_at crc32 q.metas q
    else next_at crc32 (upper_bound m q.metas) q

-- The element that `PushBack` inserts after the back element of the set.
pub pushed : (ℕ → ℕ → ℕ) → StoreMeta → StoreMeta → StoreMeta
pushed crc32 pre m = set_index (update_crc crc32 m pre.crc) ((pre.index + 1) % int_mod)

-- The element that `PushBack` inserts into an empty set.
pub pushed_first : (ℕ → ℕ → ℕ) → StoreMetaQueue → StoreMeta → StoreMeta
pushed_first crc32 q m = set_index (update_crc crc32 m q.last_dequeue_meta.crc) 0

-- `StoreMetaQueue::PushBack`.
pub push_back : (ℕ → ℕ → ℕ) → StoreMetaQueue → StoreMeta → Bool × StoreMetaQueue
unfolding insert_meta last pushed_first pushed
push_back crc32 q m = if m.cursor_id == no_cursor then (false, q) else elim (last q.metas) [
  | none ↦ (true, record q { metas = insert_meta (pushed_first crc32 q m) q.metas })
  | some pre ↦
      if not (meta_less pre m)
      then (false, q)
      else (true, record q { metas = insert_meta (pushed crc32 pre m) q.metas })
]

pub front : StoreMetaQueue → Option StoreMeta
unfolding first
front q = first q.metas

unfoldable pub back : StoreMetaQueue → Option StoreMeta
unfolding last
back q = last q.metas

-- Erasing from `begin()` up to an iterator leaves what follows the iterator.
pub erase_front_till : StoreMetaQueue → StoreMeta → StoreMetaQueue
unfolding upper_bound
erase_front_till q m =
    if m.cursor_id == no_cursor then q else record q { metas = upper_bound m q.metas }

pub erase_front_until : StoreMetaQueue → StoreMeta → StoreMetaQueue
unfolding lower_bound
erase_front_until q m =
    if m.cursor_id == no_cursor then q else record q { metas = lower_bound m q.metas }

-- `StoreMetaQueue::LowerBound`.
pub find_lower_bound : StoreMetaQueue → StoreMeta → Option StoreMeta
unfolding lower_bound first
find_lower_bound q m = if m.cursor_id == no_cursor then none else first (lower_bound m q.metas)

-- `StoreMetaQueue::UpdateDeuqueStat`.
pub update_dequeue_stat : StoreMetaQueue → StoreMeta → StoreMetaQueue
unfolding advance lower_bound first
update_dequeue_stat q m =
    if m.cursor_id == no_cursor then q else elim (first (lower_bound m q.metas)) [
      | none ↦ q
      | some x ↦ record q { last_dequeue_meta = advance q.last_dequeue_meta x }
    ]

-- The `int` of a 32-bit pattern.
abbrev pub signed32 : ℕ → ℤ
signed32 w = if ltb w 2_147_483_648 then pos w else negsuc (int_mod - w - 1)

-- `StoreMetaQueue::Size`: a `size_t` converted to `int`.
unfoldable pub size : StoreMetaQueue → ℤ
size q = signed32 (length q.metas % int_mod)

-- How many indexes lie between an element and the back one, both counted.
pub index_span : List StoreMeta → Option StoreMeta → ℤ
index_span [] _ = pos 0
index_span (x ∷ xs) none = pos 0
index_span (x ∷ xs) (some b) = signed32 ((b.index + int_mod - x.index + 1) % int_mod)

-- `StoreMetaQueue::SizeGT`, by the indexes and not by a walk.
pub size_gt : StoreMetaQueue → StoreMeta → ℤ
unfolding upper_bound last index_span
size_gt q m = index_span (upper_bound m q.metas) (last q.metas)

pub clear : StoreMetaQueue → StoreMetaQueue
clear q = record q { metas = [] }

pub clear_dequeue_stat : StoreMetaQueue → StoreMetaQueue
clear_dequeue_stat q =
    if not (q.last_dequeue_meta.cursor_id == no_cursor)
    then record q { last_dequeue_meta = empty_meta }
    else q
