-- ===== src/Common/Itoa.antt =====
-- `strconv.Itoa` of a number that is not negative: its decimal digits, and that they tell the number.
use Prim.Native.Nat.{ℕ, zero, suc, ◌+◌, ◌-◌, ◌*◌, ◌/◌, ◌%◌, ◌≤◌, ◌<◌}
use mathlib.Core.Path.{◌≡◌, refl, ap, ◌∙◌, sym}
use mathlib.Core.Logic.{inl, inr}
use mathlib.Core.List.{[], ◌∷◌, ◌++◌}
use native.Mathlib.Omega.{arith}
use backend_pkg.Common.Tests.{if◌then◌else◌, ltb, Bool-cases}
use backend_pkg.Common.Lists.{All, All-append}
use backend_pkg.Common.Text.{Bytes}

-- The rounds are more than enough: a number has fewer digits than it has units.
digits_in : ℕ → ℕ → Bytes
digits_in zero n = []
digits_in (suc rounds) n =
    let front = digits_in rounds (n / 10) in
    let last = (n % 10 + b'0') ∷ [] in if ltb n 10 then last else front ++ last

unfoldable pub itoa : ℕ → Bytes
unfolding digits_in
itoa n = digits_in (suc n) n

-- A decimal numeral read from the left.
value_from : ℕ → Bytes → ℕ
value_from acc [] = acc
value_from acc (c ∷ s) = value_from (acc * 10 + (c - b'0')) s

value_from-append :
    (s t : Bytes) (acc : ℕ) → value_from acc (s ++ t) ≡ value_from (value_from acc s) t
unfolding value_from
value_from-append [] t acc = refl
value_from-append (c ∷ s) t acc = value_from-append s t (acc * 10 + (c - b'0'))

value_from-digits_in : (rounds n : ℕ) → n < rounds → value_from 0 (digits_in rounds n) ≡ n
unfolding digits_in value_from
value_from-digits_in zero n h = elim h [ ]
value_from-digits_in (suc rounds) n h = elim (Bool-cases (ltb n 10)) [
  | inl small ↦ rw small (ground arith)
  | inr big ↦
      let below : n / 10 < rounds = ground arith in
      rw
        (
          big,
          value_from-append (digits_in rounds (n / 10)) ((n % 10 + b'0') ∷ []) 0,
          value_from-digits_in rounds (n / 10) below,
        )
        (omega arith)
]

pub itoa_injective : (m n : ℕ) → itoa m ≡ itoa n → m ≡ n
unfolding itoa
itoa_injective m n e =
    let left = value_from-digits_in (suc m) m (omega arith) in
    let right = value_from-digits_in (suc n) n (omega arith) in
    sym left ∙ ap (value_from 0) e ∙ right

digits_in-range : (rounds n : ℕ) → All (λ c. b'0' ≤ c) (digits_in rounds n)
unfolding digits_in
digits_in-range zero n = tt
digits_in-range (suc rounds) n = elim (Bool-cases (ltb n 10)) [
  | inl small ↦ rw small (omega arith, tt)
  | inr big ↦ rw big (
      All-append (λ c. b'0' ≤ c) (digits_in rounds (n / 10)) ((n % 10 + b'0') ∷ [])
        (digits_in-range rounds (n / 10)) (omega arith, tt))
]

pub itoa-range : (n : ℕ) → All (λ c. b'0' ≤ c) (itoa n)
unfolding itoa
itoa-range n = digits_in-range (suc n) n
