-- ===== src/Common/Maps.antt =====
-- Go maps with text keys as association lists: the first entry of a key counts.
use mathlib.Core.Path.{◌≡◌, refl}
use mathlib.Core.Bool.{Bool, true, false}
use mathlib.Core.List.{List, [], ◌∷◌}
use mathlib.Core.Option.{Option, none, some}
use native.Mathlib.Omega.{arith}
use backend_pkg.Common.Tests.{if◌then◌else◌, Bool-cases}
use backend_pkg.Common.Text.{Bytes, ◌=ᵇ◌, =ᵇ_iff, =ᵇ→eq}
use backend_pkg.Common.Lists.{Any}
use mathlib.Core.Logic.{inl, inr}

module _ {ℓ} {V : Type ℓ} where
  unfoldable pub lookup : Bytes → List (Bytes × V) → Option V
  unfolding ◌=ᵇ◌
  lookup k [] = none
  lookup k ((j, v) ∷ m) = if j =ᵇ k then some v else lookup k m

  -- `m[k] = v`.
  unfoldable pub insert : Bytes → V → List (Bytes × V) → List (Bytes × V)
  unfolding ◌=ᵇ◌
  insert k v [] = (k, v) ∷ []
  insert k v ((j, w) ∷ m) = if j =ᵇ k then (j, v) ∷ m else (j, w) ∷ insert k v m

  pub lookup-insert :
      (k j : Bytes) (v : V) (m : List (Bytes × V))
      → lookup j (insert k v m) ≡ (if k =ᵇ j then some v else lookup j m)
  unfolding lookup insert
  lookup-insert k j v [] = refl
  lookup-insert k j v ((i, w) ∷ m) =
      ground (arith, =ᵇ_iff k j, =ᵇ_iff i k, =ᵇ_iff i j, lookup-insert k j v m)

abbrev pub get_or {ℓ} : {A : Type ℓ} → A → Option A → A
get_or d none = d
get_or d (some a) = a

abbrev pub is_some {ℓ} : {A : Type ℓ} → Option A → Bool
is_some none = false
is_some (some a) = true

-- What is found stands in the map.
pub lookup→Any :
    {V : Type 0} (k : Bytes) (m : List (Bytes × V)) (v : V)
    → lookup k m ≡ some v
    → Any {A = Bytes × V} (λ e. (e.0 ≡ k) × (e.1 ≡ v)) m
unfolding lookup
lookup→Any k [] v h = cc
lookup→Any k ((j, w) ∷ m) v h = elim (Bool-cases (j =ᵇ k)) [
  | inl e ↦ inl (=ᵇ→eq j k e, ground arith)
  | inr e ↦ inr (lookup→Any k m v (rw e at h))
]

pub is_some→some {ℓ} : {A : Type ℓ} (o : Option A) → is_some o ≡ true → (a : A) × (o ≡ some a)
is_some→some none h = cc
is_some→some (some a) h = (a, refl)
