-- ===== src/Common/Trim.antt =====
-- Laws of `strings.TrimSpace`.
use mathlib.Core.Path.{◌≡◌, refl, ap}
use mathlib.Core.Logic.{inl, inr}
use mathlib.Core.Bool.{true, false}
use mathlib.Core.List.{[], ◌∷◌, ◌++◌}
use Prim.Native.Nat.{ℕ, suc, ◌≤◌}
use native.Mathlib.Omega.{arith}
use backend_pkg.Common.Tests.{Bool-cases}
use backend_pkg.Common.Lists.{length}
use backend_pkg.Common.Text.{Bytes, is_space, keep_last, trim_left, trim_right, trim_space}

pub trim_right_step : (c : ℕ) (s : Bytes) → trim_right (c ∷ s) ≡ keep_last c (trim_right s)
unfolding trim_right
trim_right_step c s = refl

length-keep_last : (c : ℕ) (s : Bytes) → length (keep_last c s) ≤ suc (length s)
length-keep_last c [] = ground arith
length-keep_last c (d ∷ s) = omega arith

length-trim_right : (s : Bytes) → length (trim_right s) ≤ length s
length-trim_right [] = unfold trim_right in omega arith
length-trim_right (c ∷ s) =
    rw (trim_right_step c s) (omega (arith, length-keep_last c (trim_right s), length-trim_right s))

length-trim_left : (s : Bytes) → length (trim_left s) ≤ length s
unfolding trim_left
length-trim_left [] = omega arith
length-trim_left (c ∷ s) = ground (arith, length-trim_left s)

trim_space_cons : (c : ℕ) (s : Bytes) → is_space c ≡ true → length (trim_space (c ∷ s)) ≤ length s
unfolding trim_space trim_left
trim_space_cons c s h = rw h (omega (arith, length-trim_right (trim_left s), length-trim_left s))

-- A text that trimming leaves alone begins with no white space.
pub first_not_space : (c : ℕ) (s : Bytes) → trim_space (c ∷ s) ≡ c ∷ s → is_space c ≡ false
first_not_space c s h = elim (Bool-cases (is_space c)) [
  | inl e ↦ absurd (omega (arith, trim_space_cons c s e, ap length h))
  | inr e ↦ e
]

pub trim_space_left :
    (c : ℕ) (s : Bytes) → is_space c ≡ false → trim_space (c ∷ s) ≡ trim_right (c ∷ s)
unfolding trim_space trim_left
trim_space_left c s h = rw h refl

pub trim_right-append :
    (k : Bytes) (c : ℕ) (s : Bytes)
    → trim_right (c ∷ s) ≡ c ∷ s
    → trim_right (k ++ (c ∷ s)) ≡ k ++ (c ∷ s)
trim_right-append [] c s h = h
trim_right-append (d ∷ []) c s h = rw (trim_right_step d (c ∷ s), h) refl
trim_right-append (d ∷ (e ∷ k)) c s h =
    rw (trim_right_step d (e ∷ (k ++ (c ∷ s))), trim_right-append (e ∷ k) c s h) refl
