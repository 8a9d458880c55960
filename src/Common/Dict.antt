-- ===== src/Common/Dict.antt =====
-- `std::map`: the list of its entries in ascending order of the keys.
pub mod Order
use Prim.Native.Nat.{ℕ, ◌≤◌}
use mathlib.Core.Path.{◌≡◌, refl}
use mathlib.Core.Bool.{Bool, true, false}
use mathlib.Core.List.{List, [], ◌∷◌}
use mathlib.Core.Option.{Option, none, some}
use native.Mathlib.Omega.{arith}
use phxqueue.Common.Tests.{if◌then◌else◌, Bool-cases}
use phxqueue.Common.Key.{Key, eqb_refl}

abbrev pub Dict : Type 0 → Type 0 → Type 0
Dict K V = List (K × V)

module _ {K V : Type 0} ⦃o : Key K⦄ where
  -- `m.find(k)`.
  abbrev pub lookup : K → Dict K V → Option V
  lookup k [] = none
  lookup k ((j, v) ∷ m) = if o.eqb k j then some v else lookup k m

  -- `m[k] = v`.
  abbrev pub insert : K → V → Dict K V → Dict K V
  insert k v [] = (k, v) ∷ []
  insert k v ((j, w) ∷ m) =
      if o.eqb k j
      then (k, v) ∷ m
      else if o.less k j
      then (k, v) ∷ (j, w) ∷ m
      else (j, w) ∷ insert k v m

  -- `m.erase(k)`.
  abbrev pub erase : K → Dict K V → Dict K V
  erase k [] = []
  erase k ((j, w) ∷ m) = if o.eqb k j then erase k m else (j, w) ∷ erase k m

  -- `m.upper_bound(k)`: the entries from the first key beyond `k` on.
  abbrev pub upper_bound : K → Dict K V → Dict K V
  upper_bound k [] = []
  upper_bound k ((j, w) ∷ m) = if o.less k j then (j, w) ∷ m else upper_bound k m

  pub lookup-insert :
      (j k : K) (v : V) (m : Dict K V)
      → lookup j (insert k v m) ≡ (if o.eqb j k then some v else lookup j m)
  lookup-insert j k v [] = refl
  lookup-insert j k v ((i, w) ∷ m) =
      ground (arith, o.eqb_iff j k, o.eqb_iff k i, o.eqb_iff j i, lookup-insert j k v m)

  pub lookup-insert_self : (k : K) (v : V) (m : Dict K V) → lookup k (insert k v m) ≡ some v
  lookup-insert_self k v m = rw (lookup-insert k k v m, eqb_refl o k)

  pub lookup-erase :
      (j k : K) (m : Dict K V) → lookup j (erase k m) ≡ (if o.eqb j k then none else lookup j m)
  lookup-erase j k [] = ground arith
  lookup-erase j k ((i, w) ∷ m) =
      ground (arith, o.eqb_iff j k, o.eqb_iff k i, o.eqb_iff j i, lookup-erase j k m)

  pub lookup-erase_self : (k : K) (m : Dict K V) → lookup k (erase k m) ≡ none
  lookup-erase_self k m = rw (lookup-erase k k m, eqb_refl o k)
