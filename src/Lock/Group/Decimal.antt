-- ===== src/Lock/Group/Decimal.antt =====
-- `std::to_string` of an unsigned number and `strtoul` in base 10: checkpoints go to the disk in this
-- form.
use phxqueue.Common.{
  ℕ, zero, suc, ◌+◌, ◌-◌, ◌*◌, ◌/◌, ◌%◌, ◌^◌, ◌<◌, ◌≤◌, ◌≡◌, refl, ap, ◌∙◌, Bool, ◌&&◌, ◌||◌, [],
  ◌∷◌, ◌++◌, arith, inl, inr, ltb, leb, ◌==◌, if◌then◌else◌, Bool-cases, All, All-append,
}
use phxqueue.Common.Key.{Bytes}

-- 2 ^ 64 has twenty digits.
unfoldable pub decimal : ℕ → ℕ → Bytes
decimal zero n = []
decimal (suc f) n =
    let rest = decimal f (n / 10) in if ltb n 10 then (48 + n) ∷ [] else rest ++ (48 + n % 10) ∷ []

unfoldable pub to_string : ℕ → Bytes
unfolding decimal
to_string n = decimal 20 n

is_space : ℕ → Bool
is_space b = b == 32 || leb 9 b && leb b 13

is_digit : ℕ → Bool
is_digit b = leb 48 b && leb b 57

skip_space : Bytes → Bytes
skip_space [] = []
skip_space (b ∷ bs) = if is_space b then skip_space bs else b ∷ bs

-- The digits up to the first byte that is none.
digits_from : ℕ → Bytes → ℕ
digits_from n [] = n
digits_from n (b ∷ bs) = if is_digit b then digits_from (n * 10 + (b - 48)) bs else n

-- A value out of range gives ULONG_MAX.
clamped : ℕ → ℕ
clamped n = if ltb n (2 ^ 64) then n else 2 ^ 64 - 1

-- With a minus sign the value is negated in the unsigned type, unless it is out of range.
signed : Bytes → ℕ
signed [] = 0
signed (b ∷ bs) =
    if b == 45
    then (let n = digits_from 0 bs in if ltb n (2 ^ 64) then (2 ^ 64 - n) % 2 ^ 64 else 2 ^ 64 - 1)
    else if b == 43
    then clamped (digits_from 0 bs)
    else clamped (digits_from 0 (b ∷ bs))

unfoldable pub strtoul : Bytes → ℕ
unfolding skip_space signed is_space digits_from is_digit clamped
strtoul s = signed (skip_space s)

abbrev IsDigits : Bytes → Type 0
IsDigits = All (λ b. (48 ≤ b) × (b ≤ 57))

decimal-IsDigits : (f n : ℕ) → IsDigits (decimal f n)
unfolding decimal
decimal-IsDigits zero n = tt
decimal-IsDigits (suc f) n = elim (Bool-cases (ltb n 10)) [
  | inl e ↦ rw e ((omega arith, ground arith), tt)
  | inr e ↦ rw e (
      All-append (λ b. (48 ≤ b) × (b ≤ 57)) (decimal f (n / 10)) ((48 + n % 10) ∷ [])
        (decimal-IsDigits f (n / 10)) ((omega arith, omega arith), tt))
]

digits_from-snoc :
    (n : ℕ) (xs : Bytes) (c : ℕ)
    → IsDigits xs
    → c < 10
    → digits_from n (xs ++ (48 + c) ∷ []) ≡ digits_from n xs * 10 + c
unfolding digits_from is_digit
digits_from-snoc n [] c h lt = ground arith
digits_from-snoc n (x ∷ xs) c h lt =
    ground (arith, digits_from-snoc (n * 10 + (x - 48)) xs c h.1 lt)

-- The number of values that f digits can show.
bound : ℕ → ℕ
bound zero = 1
bound (suc f) = 10 * bound f

digits_zero : (n : ℕ) → n < 1 → digits_from 0 [] ≡ n
unfolding digits_from
digits_zero n h = omega arith

one_digit : (n : ℕ) → n < 10 → digits_from 0 ((48 + n) ∷ []) ≡ n
unfolding digits_from is_digit
one_digit n h = ground arith

small : (n : ℕ) → n < 2 ^ 64 → n < bound 20
unfolding bound
small n h = omega arith

clamped_below : (n : ℕ) → n < 2 ^ 64 → clamped n ≡ n
unfolding clamped
clamped_below n h = ground arith

digits_from-decimal : (f n : ℕ) → n < bound f → digits_from 0 (decimal f n) ≡ n
unfolding bound decimal
digits_from-decimal zero n h = digits_zero n h
digits_from-decimal (suc f) n h = elim (Bool-cases (ltb n 10)) [
  | inl e ↦ rw e (one_digit n (ground arith))
  | inr e ↦ rw e (
      digits_from-snoc 0 (decimal f (n / 10)) (n % 10) (decimal-IsDigits f (n / 10)) (omega arith)
      ∙ omega (arith, digits_from-decimal f (n / 10) (omega arith)))
]

skip_space-IsDigits : (xs : Bytes) → IsDigits xs → skip_space xs ≡ xs
unfolding skip_space is_space
skip_space-IsDigits [] h = refl
skip_space-IsDigits (x ∷ xs) h = ground arith

signed_nil : 0 ≡ clamped (digits_from 0 [])
unfolding clamped digits_from
signed_nil = refl

signed-IsDigits : (xs : Bytes) → IsDigits xs → signed xs ≡ clamped (digits_from 0 xs)
unfolding signed
signed-IsDigits [] h = signed_nil
signed-IsDigits (x ∷ xs) h = ground arith

-- A 64-bit number that is printed is read back.
pub strtoul-to_string : (n : ℕ) → n < 2 ^ 64 → strtoul (to_string n) ≡ n
unfolding strtoul to_string
strtoul-to_string n h =
    let all = decimal-IsDigits 20 n in
    rw (skip_space-IsDigits (decimal 20 n) all) (
      signed-IsDigits (decimal 20 n) all
      ∙ ap clamped (digits_from-decimal 20 n (small n h))
      ∙ clamped_below n h)
