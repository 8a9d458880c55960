-- ===== src/Lock/Db/Loop.antt =====
-- Repeated calls of `ForwardLoopKey`: which keys the cleaner gets to see, and in which order.
use phxqueue.Common.{
  ℕ, zero, suc, ◌+◌, ◌≡◌, refl, sym, ap, ◌∙◌, subst, none, List, [], ◌∷◌, ◌++◌, arith, length,
  length-append,
}
use native.Mathlib.Nat.{add-zero}
use mathlib.Core.List.{append_assoc, append-nil}
use phxqueue.Common.RetCode.{ret_ok}
use phxqueue.Common.Key.{Bytes, bytes_key}
use phxqueue.Common.Key.Order.{bytes-IsOrdered}
use phxqueue.Common.Dict.{Dict, lookup}
use phxqueue.Common.Dict.Order.{IsSorted, upper_bound_split, lookup_split}
use phxqueue.Lock.Disk.{LocalRecordInfo, Disk}
use phxqueue.Lock.Db.{LockDb, map_storage}
use phxqueue.Lock.Db.Walk.{key_of, next_loop_key, loop_key, forward_loop_key}

abbrev Records : Type 0
Records = Dict Bytes LocalRecordInfo

abbrev pub keys : Records → List Bytes
keys [] = []
keys ((k, v) ∷ m) = k ∷ keys m

abbrev last_key : Bytes → Records → Bytes
last_key k [] = k
last_key k ((j, w) ∷ m) = last_key j m

keys-append : (a b : Records) → keys (a ++ b) ≡ keys a ++ keys b
keys-append [] b = refl
keys-append ((k, v) ∷ a) b = ap (λ (l : List Bytes). k ∷ l) (keys-append a b)

last_key_end : (k j : Bytes) (w : LocalRecordInfo) (m : Records) → last_key k (m ++ (j, w) ∷ []) ≡ j
last_key_end k j w [] = refl
last_key_end k j w ((i, u) ∷ m) = last_key_end i j w m

has_first :
    (pre : Records) (x : Bytes × LocalRecordInfo) (rest : Records)
    → (p : (Bytes × LocalRecordInfo) × Records) × (pre ++ x ∷ rest ≡ p.0 ∷ p.1)
has_first [] x rest = ((x, rest), refl)
has_first (y ∷ pre) x rest = ((y, pre ++ x ∷ rest), refl)

module _ (d : Disk) where
  next_inner :
      (m pre rest : Records) (k j : Bytes) (v w : LocalRecordInfo)
      → IsSorted m
      → m ≡ pre ++ (k, v) ∷ (j, w) ∷ rest
      → next_loop_key d m k ≡ j
  unfolding next_loop_key loop_key
  next_inner m pre rest k j v w h e =
      let (u, f) = lookup_split k v pre ((j, w) ∷ rest) in
      let g = upper_bound_split bytes-IsOrdered k v pre ((j, w) ∷ rest) (subst IsSorted e h) in
      rw e (ground (arith, f, g))

  next_end :
      (m pre : Records) (k : Bytes) (v : LocalRecordInfo)
      → IsSorted m
      → m ≡ pre ++ (k, v) ∷ []
      → next_loop_key d m k ≡ key_of m
  unfolding next_loop_key loop_key
  next_end m pre k v h e =
      let (u, f) = lookup_split k v pre [] in
      let g = upper_bound_split bytes-IsOrdered k v pre [] (subst IsSorted e h) in
      rw e (ground (arith, f, g))

  regroup :
      (m pre : Records) (e : Bytes × LocalRecordInfo) (rest : Records)
      → m ≡ pre ++ e ∷ rest
      → m ≡ (pre ++ e ∷ []) ++ rest
  regroup m pre e rest h = h ∙ sym (append_assoc pre (e ∷ []) rest)

  -- Behind the last key comes the first.
  next_last :
      (m pre rest : Records) (k : Bytes) (v : LocalRecordInfo)
      → IsSorted m
      → m ≡ pre ++ (k, v) ∷ rest
      → next_loop_key d m (last_key k rest) ≡ key_of m
  next_last m pre [] k v h e = next_end m pre k v h e
  next_last m pre ((j, w) ∷ rest) k v h e =
      next_last m (pre ++ (k, v) ∷ []) rest j w h (regroup m pre (k, v) ((j, w) ∷ rest) e)

  -- The keys that n steps through the map come to.
  pub steps : ℕ → Records → Bytes → List Bytes
  steps zero m prev = []
  steps (suc n) m prev = let k = next_loop_key d m prev in k ∷ steps n m k

  steps_run :
      (m pre mid rest : Records) (k : Bytes) (v : LocalRecordInfo) (n : ℕ)
      → IsSorted m
      → m ≡ pre ++ (k, v) ∷ (mid ++ rest)
      → steps (length mid + n) m k ≡ keys mid ++ steps n m (last_key k mid)
  unfolding steps
  steps_run m pre [] rest k v n h e = ground arith
  steps_run m pre ((j, w) ∷ mid) rest k v n h e =
      let shift : suc (length mid) + n ≡ suc (length mid + n) = omega arith in
      let ih =
        steps_run m (pre ++ (k, v) ∷ []) mid rest j w n h
          (regroup m pre (k, v) ((j, w) ∷ (mid ++ rest)) e) in
      rw shift (rw (next_inner m pre (mid ++ rest) k j v w h e) (ap (λ (l : List Bytes). j ∷ l) ih))

  -- A full round from a key that the map holds: the keys behind it, then those before it, then itself.
  steps_round :
      (m pre rest : Records) (k : Bytes) (v : LocalRecordInfo)
      → IsSorted m
      → m ≡ pre ++ (k, v) ∷ rest
      → steps (length m) m k ≡ keys (rest ++ (pre ++ (k, v) ∷ []))
  unfolding steps
  steps_round m [] rest k v h e =
      let last = e ∙ ap (λ (l : Records). (k, v) ∷ l) (sym (append-nil rest)) in
      let run = steps_run m [] rest [] k v 1 h last in
      let size : length m ≡ length rest + 1 = ap length e ∙ omega arith in
      rw size
        (rw run (rw (next_last m [] rest k v h e) (rw e (sym (keys-append rest ((k, v) ∷ []))))))
  steps_round m ((i, u) ∷ pre) rest k v h e =
      let n = length (pre ++ (k, v) ∷ []) in
      let last = e ∙ ap (λ (l : Records). (i, u) ∷ (pre ++ (k, v) ∷ l)) (sym (append-nil rest)) in
      let run = steps_run m ((i, u) ∷ pre) rest [] k v (suc (n + 0)) h last in
      let first =
        e ∙ ap (λ (l : Records). (i, u) ∷ l) (sym (append_assoc pre ((k, v) ∷ []) rest)) in
      let more = steps_run m [] (pre ++ (k, v) ∷ []) rest i u 0 h first in
      let size : length m ≡ length rest + suc (n + 0) =
        ap length e
        ∙ omega
            (arith, length-append {0} pre ((k, v) ∷ []), length-append {0} pre ((k, v) ∷ rest)) in
      let wrap : next_loop_key d m (last_key k rest) ≡ i =
        next_last m ((i, u) ∷ pre) rest k v h e ∙ ap key_of e in
      rw size (
        rw run
          (rw wrap (rw more (rw (append-nil, keys-append rest ((i, u) ∷ (pre ++ (k, v) ∷ [])))))))

  next_none :
      (m : Records) (prev : Bytes) → lookup prev m ≡ none → next_loop_key d m prev ≡ key_of m
  unfolding next_loop_key
  next_none m prev e = ground (arith, e)

  -- From a key that the map does not hold a round begins at the first.
  steps_start :
      (m : Records) (prev : Bytes)
      → IsSorted m
      → lookup prev m ≡ none
      → steps (length m) m prev ≡ keys m
  unfolding steps
  steps_start [] prev h e = refl
  steps_start ((k, v) ∷ m) prev h e =
      let whole : (k, v) ∷ m ≡ [] ++ (k, v) ∷ (m ++ []) =
        ap (λ (l : Records). (k, v) ∷ l) (sym (append-nil m)) in
      let run = steps_run ((k, v) ∷ m) [] m [] k v 0 h whole in
      rw (next_none ((k, v) ∷ m) prev e)
        (ap (λ (l : List Bytes). k ∷ l) (rw (add-zero, append-nil) at run))

  -- The keys that n calls of `ForwardLoopKey` give, each on the database that the one before left.
  pub loop_keys : ℕ → LockDb d.Db → List Bytes
  loop_keys zero s = []
  loop_keys (suc n) s = let (ret, k, s') = forward_loop_key d s in k ∷ loop_keys n s'

  forward_step :
      (s : LockDb d.Db) (e : Bytes × LocalRecordInfo) (m : Records)
      → s.storage_type ≡ map_storage
      → s.map ≡ e ∷ m
      → let k = next_loop_key d s.map s.prev_loop_key in
        forward_loop_key d s ≡ (ret_ok, k, record s { prev_loop_key = k })
  unfolding forward_loop_key
  forward_step s e m t h = ground (arith, t, h)

  loop_keys-steps :
      (n : ℕ) (s : LockDb d.Db) (e : Bytes × LocalRecordInfo) (m : Records)
      → s.storage_type ≡ map_storage
      → s.map ≡ e ∷ m
      → loop_keys n s ≡ steps n s.map s.prev_loop_key
  unfolding loop_keys steps
  loop_keys-steps zero s e m t h = refl
  loop_keys-steps (suc n) s e m t h =
      let k = next_loop_key d s.map s.prev_loop_key in
      let rest = loop_keys-steps n (record s { prev_loop_key = k }) e m t h in
      rw (forward_step s e m t h) (ap (λ (l : List Bytes). k ∷ l) rest)

  -- On a map in memory that is sorted, with the search standing at a key k of it, as many calls of
  -- ForwardLoopKey as the map has entries come to every key once: first those behind k in ascending
  -- order, then those before it in ascending order, then k.
  pub forward_loop_key-round :
      (s : LockDb d.Db) (pre rest : Records) (k : Bytes) (v : LocalRecordInfo)
      → s.storage_type ≡ map_storage
      → IsSorted s.map
      → s.map ≡ pre ++ (k, v) ∷ rest
      → s.prev_loop_key ≡ k
      → loop_keys (length s.map) s ≡ keys (rest ++ (pre ++ (k, v) ∷ []))
  forward_loop_key-round s pre rest k v t h e p =
      let ((e', m'), first) = has_first pre (k, v) rest in
      let round = steps_round s.map pre rest k v h e in
      loop_keys-steps (length s.map) s e' m' t (e ∙ first)
      ∙ ap (λ (j : Bytes). steps (length s.map) s.map j) p
      ∙ round

  -- On a map in memory that is sorted and not empty, with the search standing at a key that the
  -- map does not hold, as many calls of ForwardLoopKey as the map has entries come to all keys in
  -- ascending order.
  pub forward_loop_key-start :
      (s : LockDb d.Db) (e : Bytes × LocalRecordInfo) (m : Records)
      → s.storage_type ≡ map_storage
      → IsSorted s.map
      → s.map ≡ e ∷ m
      → lookup s.prev_loop_key s.map ≡ none
      → loop_keys (length s.map) s ≡ keys s.map
  forward_loop_key-start s e m t h split missing =
      loop_keys-steps (length s.map) s e m t split ∙ steps_start s.map s.prev_loop_key h missing
