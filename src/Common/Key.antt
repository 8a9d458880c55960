-- ===== src/Common/Key.antt =====
-- The keys of ordered maps: an order test and an equality test that decides `≡`. Byte strings are
-- compared as `std::string` compares them.
pub mod Order
use Prim.Native.Nat.{ℕ}
use mathlib.Core.Path.{◌≡◌, refl, ap, ap₂}
use mathlib.Core.Logic.{◌↔◌}
use mathlib.Core.Bool.{Bool, true, false, ◌&&◌, ◌||◌}
use mathlib.Core.List.{List, [], ◌∷◌}
use native.Mathlib.Omega.{arith}
use phxqueue.Common.Tests.{◌==◌, ltb, ==_iff, if◌then◌else◌}
use phxqueue.Common.Int.{ℤ, eqb_ℤ, ltb_ℤ, eqb_ℤ_iff}

pub record Key (K : Type 0) : Type 0 where
  pub eqb : K → K → Bool
  pub less : K → K → Bool
  pub eqb_iff : (a b : K) → (eqb a b ≡ true) ↔ (a ≡ b)

pub eqb_refl : {K : Type 0} (o : Key K) (a : K) → o.eqb a a ≡ true
eqb_refl o a = (o.eqb_iff a a).1 refl

-- A string is the list of its bytes.
abbrev pub Bytes : Type 0
Bytes = List ℕ

abbrev pub bytes_eq : Bytes → Bytes → Bool
bytes_eq [] [] = true
bytes_eq [] (b ∷ bs) = false
bytes_eq (a ∷ as') [] = false
bytes_eq (a ∷ as') (b ∷ bs) = a == b && bytes_eq as' bs

abbrev pub bytes_less : Bytes → Bytes → Bool
bytes_less [] [] = false
bytes_less [] (b ∷ bs) = true
bytes_less (a ∷ as') [] = false
bytes_less (a ∷ as') (b ∷ bs) = ltb a b || (a == b && bytes_less as' bs)

bytes_eq_sound : (a b : Bytes) → bytes_eq a b ≡ true → a ≡ b
bytes_eq_sound [] [] h = refl
bytes_eq_sound [] (b ∷ bs) h = cc
bytes_eq_sound (a ∷ as') [] h = cc
bytes_eq_sound (a ∷ as') (b ∷ bs) h = ground (arith, bytes_eq_sound as' bs)

bytes_eq_refl : (a : Bytes) → bytes_eq a a ≡ true
bytes_eq_refl [] = refl
bytes_eq_refl (a ∷ as') = ground (arith, bytes_eq_refl as')

pub bytes_eq_iff : (a b : Bytes) → (bytes_eq a b ≡ true) ↔ (a ≡ b)
bytes_eq_iff a b = (bytes_eq_sound a b, λ e. rw e (bytes_eq_refl b))

instance abbrev pub bytes_key : Key Bytes
bytes_key = record { eqb = bytes_eq; less = bytes_less; eqb_iff = bytes_eq_iff }

instance abbrev pub nat_key : Key ℕ
nat_key = record { eqb = ◌==◌; less = ltb; eqb_iff = ==_iff }

instance abbrev pub int_key : Key ℤ
int_key = record { eqb = eqb_ℤ; less = ltb_ℤ; eqb_iff = eqb_ℤ_iff }
