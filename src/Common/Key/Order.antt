-- ===== src/Common/Key/Order.antt =====
-- Strings are ordered as `std::string` orders them, and numbers as usual.
use mathlib.Core.Path.{◌≡◌, refl}
use mathlib.Core.Bool.{true, false}
use mathlib.Core.List.{[], ◌∷◌}
use native.Mathlib.Omega.{arith}
use phxqueue.Common.Key.{Bytes, bytes_eq, bytes_less, bytes_key, nat_key}
use phxqueue.Common.Dict.Order.{IsOrdered}

bytes_irrefl : (a : Bytes) → bytes_less a a ≡ false
bytes_irrefl [] = refl
bytes_irrefl (a ∷ as') = ground (arith, bytes_irrefl as')

bytes_trans :
    (a b c : Bytes) → bytes_less a b ≡ true → bytes_less b c ≡ true → bytes_less a c ≡ true
bytes_trans [] [] c h k = cc
bytes_trans [] (b ∷ bs) [] h k = cc
bytes_trans [] (b ∷ bs) (c ∷ cs) h k = refl
bytes_trans (a ∷ as') [] c h k = cc
bytes_trans (a ∷ as') (b ∷ bs) [] h k = cc
bytes_trans (a ∷ as') (b ∷ bs) (c ∷ cs) h k = ground (arith, bytes_trans as' bs cs)

bytes_total : (a b : Bytes) → bytes_eq a b ≡ false → bytes_less a b ≡ false → bytes_less b a ≡ true
bytes_total [] [] h k = cc
bytes_total [] (b ∷ bs) h k = cc
bytes_total (a ∷ as') [] h k = refl
bytes_total (a ∷ as') (b ∷ bs) h k = ground (arith, bytes_total as' bs)

pub bytes-IsOrdered : IsOrdered bytes_key
bytes-IsOrdered = record { irrefl = bytes_irrefl; trans = bytes_trans; total = bytes_total }

pub nat-IsOrdered : IsOrdered nat_key
nat-IsOrdered = record {
  irrefl = λ a. ground arith;
  trans = λ a b c h k. ground arith;
  total = λ a b h k. ground arith;
}
