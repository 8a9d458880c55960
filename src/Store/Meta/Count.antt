-- ===== src/Store/Meta/Count.antt =====
-- `SizeGT`, which subtracts two indexes, and `Size`.
use phxqueue.Common.{
  ◌-◌, ◌^◌, ap, ◌∙◌, Bool, ℕ, ◌+◌, ◌%◌, ◌≤◌, ◌<◌, ◌≡◌, refl, some, List, [], ◌∷◌, arith, length,
}
use phxqueue.Store.Meta.{
  StoreMeta, StoreMetaQueue, int_mod, upper_bound, last, index_span, size, size_gt, signed32,
}
use phxqueue.Common.Int.{pos, negsuc}
use phxqueue.Store.Meta.Chain.{IsLinked, IsValid, upper_bound-IsLinked}
use phxqueue.Store.Meta.Order.{last-some}
use phxqueue.Store.Meta.Erase.{keep, beyond, upper_bound-keep}

index-last :
    (crc32 : ℕ → ℕ → ℕ) (x : StoreMeta) (xs : List StoreMeta) (b : StoreMeta)
    → IsLinked crc32 (x ∷ xs)
    → last (x ∷ xs) ≡ some b
    → (x.index < int_mod) × (b.index ≡ (x.index + length xs) % int_mod)
unfolding last
index-last crc32 x [] b h e = ground arith
index-last crc32 x (y ∷ ys) b h e = let ih = index-last crc32 y ys b h.2 e in omega arith

last-upper_bound :
    (m : StoreMeta) (xs : List StoreMeta) (y : StoreMeta) (ys : List StoreMeta)
    → upper_bound m xs ≡ y ∷ ys
    → (last xs ≡ last (y ∷ ys)) × (length (y ∷ ys) ≤ length xs)
unfolding upper_bound last
last-upper_bound m [] y ys e = cc
last-upper_bound m (x ∷ []) y ys e = ground arith
last-upper_bound m (x ∷ z ∷ zs) y ys e = ground (arith, last-upper_bound m (z ∷ zs) y ys)

size_gt-at :
    (crc32 : ℕ → ℕ → ℕ) (xs ys : List StoreMeta) (m : StoreMeta)
    → upper_bound m xs ≡ ys
    → IsLinked crc32 ys
    → length xs < int_mod
    → index_span ys (last xs) ≡ signed32 (length ys)
unfolding index_span
size_gt-at crc32 xs [] m e h lt = refl
size_gt-at crc32 xs (y ∷ ys) m e h lt =
    let (b, f) = last-some y ys in
    let (same, le) = last-upper_bound m xs y ys e in
    let (small, eq) = index-last crc32 y ys b h f in
    rw (same, f, index_span) (ap signed32 (omega arith))

length-keep : (p : StoreMeta → Bool) (xs : List StoreMeta) → length (keep p xs) ≤ length xs
length-keep p [] = omega arith
length-keep p (x ∷ xs) = ground (arith, length-keep p xs)

signed32_small : (n : ℕ) → n < 2 ^ 31 → signed32 n ≡ pos n
signed32_small n lt = ground arith

signed32_large : (n : ℕ) → 2 ^ 31 ≤ n → n < 2 ^ 32 → signed32 n ≡ negsuc (2 ^ 32 - n - 1)
signed32_large n ge lt = ground arith

size_gt-signed32 :
    (crc32 : ℕ → ℕ → ℕ) (q : StoreMetaQueue) (m : StoreMeta)
    → IsValid crc32 q
    → length q.metas < int_mod
    → size_gt q m ≡ signed32 (length (keep (beyond m.cursor_id) q.metas))
unfolding size_gt
size_gt-signed32 crc32 q m v lt = rw (← upper_bound-keep m q.metas v.ascending) (
    size_gt-at crc32 q.metas (upper_bound m q.metas) m refl
      (upper_bound-IsLinked crc32 m q.metas v.linked) lt)

-- On a valid queue that holds fewer than 2^32 cursors, SizeGT is the number n of its cursors that are
-- beyond the given one, where n is less than 2^31, also where the 32-bit indexes have wrapped; from 2^31
-- on it is the negative number n - 2^32. Size is the number of all cursors, where that is less than 2^31.
pub size_gt-length :
    (crc32 : ℕ → ℕ → ℕ) (q : StoreMetaQueue) (m : StoreMeta)
    → IsValid crc32 q
    → length q.metas < 2 ^ 32
    → let n = length (keep (beyond m.cursor_id) q.metas) in
      (n < 2 ^ 31 → size_gt q m ≡ pos n)
      × (2 ^ 31 ≤ n → size_gt q m ≡ negsuc (2 ^ 32 - n - 1))
      × (length q.metas < 2 ^ 31 → size q ≡ pos (length q.metas))
unfolding size
size_gt-length crc32 q m v lt =
    let n = length (keep (beyond m.cursor_id) q.metas) in
    let pattern = size_gt-signed32 crc32 q m v (omega arith) in
    (
      λ small. pattern ∙ signed32_small n small,
      λ large.
          pattern
          ∙ signed32_large n large (omega (arith, length-keep (beyond m.cursor_id) q.metas)),
      λ small. ground arith,
    )
