-- ===== src/Events/Sensitivity.antt =====
-- eventlog/events/sensitivity.go. A class is a text, as in the source; a text that is no class has
-- the rank 0 that a Go map gives for a missing key.
use Prim.Native.Nat.{max}
use backend_pkg.Common.{
  sym, ◌∙◌, ap, Any, ◌==◌, ℕ, ◌≡◌, refl, inl, inr, Bool, true, List, [], ◌∷◌, Bytes, codes, lookup,
  get_or, is_some, is_some→some, lookup→Any, ltb, if◌then◌else◌, arith, some,
}

abbrev pub Sensitivity : Type 0
Sensitivity = Bytes

abbrev pub operational : Sensitivity
operational = codes "OPERATIONAL"

abbrev pub financial : Sensitivity
financial = codes "FINANCIAL"

abbrev pub hr : Sensitivity
hr = codes "HR"

abbrev pub compliance : Sensitivity
compliance = codes "COMPLIANCE"

abbrev pub security : Sensitivity
security = codes "SECURITY"

abbrev sensitivity_rank : List (Sensitivity × ℕ)
sensitivity_rank =
    (operational, 0) ∷ (hr, 1) ∷ (compliance, 2) ∷ (financial, 3) ∷ (security, 4) ∷ []

unfoldable pub is_valid : Sensitivity → Bool
unfolding lookup
is_valid s = is_some (lookup s sensitivity_rank)

-- `sensitivityRank[s]`.
unfoldable pub rank : Sensitivity → ℕ
unfolding lookup
rank s = get_or 0 (lookup s sensitivity_rank)

unfoldable pub stricter : Sensitivity → Sensitivity → Sensitivity
stricter a b = if ltb (rank a) (rank b) then b else a

pub rank-stricter : (a b : Sensitivity) → rank (stricter a b) ≡ max (rank a) (rank b)
unfolding stricter
rank-stricter a b = ground arith

pub stricter-IsValid :
    (a b : Sensitivity) → is_valid a ≡ true → is_valid b ≡ true → is_valid (stricter a b) ≡ true
unfolding stricter
stricter-IsValid a b h k = ground arith

unrank : ℕ → Sensitivity
unrank n =
    if n == 0
    then operational
    else if n == 1
    then hr
    else if n == 2
    then compliance
    else if n == 3
    then financial
    else security

Valid-cases :
    (s : Sensitivity) → is_valid s ≡ true → Any (λ e. (e.0 ≡ s) × (e.1 ≡ rank s)) sensitivity_rank
unfolding is_valid rank
Valid-cases s h =
    let (n, e) = is_some→some (lookup s sensitivity_rank) h in
    lookup→Any s sensitivity_rank (rank s) (rw e (ap some (ground arith)))

unrank-rank : (s : Sensitivity) → is_valid s ≡ true → unrank (rank s) ≡ s
unfolding unrank rank
unrank-rank s h = elim (Valid-cases s h) [
  | inl e ↦ rw (← e.0) refl
  | inr (inl e) ↦ rw (← e.0) refl
  | inr (inr (inl e)) ↦ rw (← e.0) refl
  | inr (inr (inr (inl e))) ↦ rw (← e.0) refl
  | inr (inr (inr (inr (inl e)))) ↦ rw (← e.0) refl
  | inr (inr (inr (inr (inr e)))) ↦ absurd e
]

-- Of valid classes the rank tells which one it is.
pub rank_injective :
    (a b : Sensitivity) → is_valid a ≡ true → is_valid b ≡ true → rank a ≡ rank b → a ≡ b
rank_injective a b h k e = sym (unrank-rank a h) ∙ ap unrank e ∙ unrank-rank b k

stricter_comm :
    (a b : Sensitivity) → is_valid a ≡ true → is_valid b ≡ true → stricter a b ≡ stricter b a
stricter_comm a b h k =
    rank_injective _ _ (stricter-IsValid a b h k) (stricter-IsValid b a k h)
      (omega (arith, rank-stricter a b, rank-stricter b a))

stricter_assoc :
    (a b c : Sensitivity)
    → is_valid a ≡ true
    → is_valid b ≡ true
    → is_valid c ≡ true
    → stricter (stricter a b) c ≡ stricter a (stricter b c)
stricter_assoc a b c h k l =
    rank_injective _ _ (stricter-IsValid _ c (stricter-IsValid a b h k) l)
      (stricter-IsValid a _ h (stricter-IsValid b c k l))
      (omega (
        arith,
        rank-stricter (stricter a b) c,
        rank-stricter a b,
        rank-stricter a (stricter b c),
        rank-stricter b c,
      ))

-- Of valid classes the stricter one is valid, has the greater rank of the two, and does not depend
-- on the order or the grouping in which classes are compared.
stricter_laws :
    (a b c : Sensitivity)
    → is_valid a ≡ true
    → is_valid b ≡ true
    → is_valid c ≡ true
    → (is_valid (stricter a b) ≡ true)
      × (rank (stricter a b) ≡ max (rank a) (rank b))
      × (stricter a b ≡ stricter b a)
      × (stricter (stricter a b) c ≡ stricter a (stricter b c))
stricter_laws a b c h k l =
    (stricter-IsValid a b h k, rank-stricter a b, stricter_comm a b h k, stricter_assoc a b c h k l)
