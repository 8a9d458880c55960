-- ===== src/Common/Dict/Order.antt =====
-- Ordered maps whose entries stand in strictly ascending order of their keys.
use mathlib.Core.Path.{◌≡◌}
use mathlib.Core.Bool.{true, false}
use mathlib.Core.List.{[], ◌∷◌, ◌++◌}
use mathlib.Core.Option.{some}
use native.Mathlib.Omega.{arith}
use phxqueue.Common.Tests.{Bool-cases}
use mathlib.Core.Logic.{inl, inr}
use phxqueue.Common.Key.{Key}
use phxqueue.Common.Dict.{Dict, lookup, insert, erase, upper_bound}

-- The order of the keys is a strict total one.
pub record IsOrdered {K : Type 0} (o : Key K) : Type 0 where
  pub irrefl : (a : K) → o.less a a ≡ false
  pub trans : (a b c : K) → o.less a b ≡ true → o.less b c ≡ true → o.less a c ≡ true
  pub total : (a b : K) → o.eqb a b ≡ false → o.less a b ≡ false → o.less b a ≡ true

module _ {K : Type 0} {o : Key K} (ord : IsOrdered o) where
  asym : (a b : K) → o.less a b ≡ true → o.less b a ≡ false
  asym a b h = elim (Bool-cases (o.less b a)) [
    | inl e ↦ absurd (ground (arith, ord.trans a b a h e, ord.irrefl a))
    | inr e ↦ e
  ]

module _ {K V : Type 0} ⦃o : Key K⦄ where
  abbrev pub Beyond : K → Dict K V → Type 0
  Beyond k [] = Unit {0}
  Beyond k ((j, w) ∷ m) = (o.less k j ≡ true) × Beyond j m

  abbrev pub IsSorted : Dict K V → Type 0
  IsSorted [] = Unit {0}
  IsSorted ((k, v) ∷ m) = Beyond k m

  pub Beyond-IsSorted : (k : K) (m : Dict K V) → Beyond k m → IsSorted m
  Beyond-IsSorted k [] h = tt
  Beyond-IsSorted k ((j, w) ∷ m) h = h.1

module _ {K V : Type 0} ⦃o : Key K⦄ (ord : IsOrdered o) where
  insert-Beyond :
      (b k : K) (v : V) (m : Dict K V) → o.less b k ≡ true → Beyond b m → Beyond b (insert k v m)
  insert-Beyond b k v [] lt h = (lt, tt)
  insert-Beyond b k v ((j, w) ∷ m) lt h =
      ground (arith, o.eqb_iff k j, ord.total k j, insert-Beyond j k v m, h.1)

  Beyond-trans : (b k : K) (m : Dict K V) → o.less b k ≡ true → Beyond k m → Beyond b m
  Beyond-trans b k [] lt h = tt
  Beyond-trans b k ((j, w) ∷ m) lt h = (ord.trans b k j lt h.0, h.1)

  erase-Beyond : (b k : K) (m : Dict K V) → Beyond b m → Beyond b (erase k m)
  erase-Beyond b k [] h = tt
  erase-Beyond b k ((j, w) ∷ m) h =
      ground (arith, erase-Beyond b k m (Beyond-trans b j m h.0 h.1), erase-Beyond j k m h.1)

  pub insert-IsSorted : (k : K) (v : V) (m : Dict K V) → IsSorted m → IsSorted (insert k v m)
  insert-IsSorted k v [] h = tt
  insert-IsSorted k v ((j, w) ∷ m) h =
      ground (arith, o.eqb_iff k j, ord.total k j, insert-Beyond j k v m)

  pub erase-IsSorted : (k : K) (m : Dict K V) → IsSorted m → IsSorted (erase k m)
  erase-IsSorted k [] h = tt
  erase-IsSorted k ((j, w) ∷ m) h =
      ground (arith, erase-Beyond j k m h, erase-IsSorted k m (Beyond-IsSorted j m h))

  Beyond-reaches :
      (b k : K) (v : V) (pre rest : Dict K V) → Beyond b (pre ++ (k, v) ∷ rest) → o.less b k ≡ true
  Beyond-reaches b k v [] rest h = h.0
  Beyond-reaches b k v ((j, w) ∷ pre) rest h =
      ord.trans b j k h.0 (Beyond-reaches j k v pre rest h.1)

  upper_bound_here :
      (k : K) (v : V) (rest : Dict K V) → Beyond k rest → upper_bound k ((k, v) ∷ rest) ≡ rest
  upper_bound_here k v [] h = ground (arith, ord.irrefl k)
  upper_bound_here k v ((j, w) ∷ rest) h = ground (arith, ord.irrefl k)

  upper_bound_from :
      (b k : K) (v : V) (pre rest : Dict K V)
      → Beyond b (pre ++ (k, v) ∷ rest)
      → upper_bound k (pre ++ (k, v) ∷ rest) ≡ rest
  upper_bound_from b k v [] rest h = upper_bound_here k v rest h.1
  upper_bound_from b k v ((j, w) ∷ pre) rest h =
      ground (
        arith,
        upper_bound_from j k v pre rest h.1,
        asym ord j k (Beyond-reaches j k v pre rest h.1),
      )

  -- In a sorted map the entries beyond a key that it holds are those behind its own.
  pub upper_bound_split :
      (k : K) (v : V) (pre rest : Dict K V)
      → IsSorted (pre ++ (k, v) ∷ rest)
      → upper_bound k (pre ++ (k, v) ∷ rest) ≡ rest
  upper_bound_split k v [] rest h = upper_bound_here k v rest h
  upper_bound_split k v ((j, w) ∷ pre) rest h =
      ground
        (arith, upper_bound_from j k v pre rest h, asym ord j k (Beyond-reaches j k v pre rest h))

module _ {K V : Type 0} ⦃o : Key K⦄ where
  pub lookup_split :
      (k : K) (v : V) (pre rest : Dict K V) → (u : V) × (lookup k (pre ++ (k, v) ∷ rest) ≡ some u)
  lookup_split k v [] rest = (v, ground (arith, o.eqb_iff k k))
  lookup_split k v ((j, w) ∷ pre) rest =
      let (u, e) = lookup_split k v pre rest in
      elim (Bool-cases (o.eqb k j)) [ inl f ↦ (w, rw f) | inr f ↦ (u, rw f e) ]

module _ {K V : Type 0} ⦃o : Key K⦄ (ord : IsOrdered o) where
  -- Every entry of the second map is the one that the first finds under its key.
  abbrev pub AllFound : Dict K V → Dict K V → Type 0
  AllFound whole [] = Unit {0}
  AllFound whole ((k, v) ∷ m) = (lookup k whole ≡ some v) × AllFound whole m

  AllFound-cons :
      (j : K) (w : V) (whole m : Dict K V)
      → Beyond j m
      → AllFound whole m
      → AllFound ((j, w) ∷ whole) m
  AllFound-cons j w whole [] h found = tt
  AllFound-cons j w whole ((k, v) ∷ m) h found = (
    ground (arith, o.eqb_iff k j, ord.irrefl j, found.0, h.0),
    AllFound-cons j w whole m (Beyond-trans ord j k m h.0 h.1) found.1,
  )

  pub IsSorted-AllFound : (m : Dict K V) → IsSorted m → AllFound m m
  IsSorted-AllFound [] h = tt
  IsSorted-AllFound ((k, v) ∷ m) h = (
    ground (arith, o.eqb_iff k k),
    AllFound-cons k v m m h (IsSorted-AllFound m (Beyond-IsSorted k m h)),
  )
