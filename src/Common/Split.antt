-- ===== src/Common/Split.antt =====
-- `strings.Split` at a byte, and what it gives for a text in two parts.
use Prim.Native.Nat.{ℕ, suc, ◌+◌}
use mathlib.Core.Path.{◌≡◌, refl, ap, ◌∙◌}
use mathlib.Core.Logic.{inl, inr}
use mathlib.Core.List.{List, [], ◌∷◌, ◌++◌}
use native.Mathlib.Omega.{arith}
use backend_pkg.Common.Tests.{if◌then◌else◌, ◌==◌, Bool-cases, ==_refl}
use backend_pkg.Common.Lists.{length, get_elem?}
use backend_pkg.Common.Text.{Bytes}

-- One more byte in front of the first part.
abbrev pub push : ℕ → List Bytes → List Bytes
push c [] = (c ∷ []) ∷ []
push c (p ∷ ps) = (c ∷ p) ∷ ps

-- One part more than there are separators.
unfoldable pub split_on : ℕ → Bytes → List Bytes
split_on sep [] = [] ∷ []
split_on sep (c ∷ s) = let rest = split_on sep s in if c == sep then [] ∷ rest else push c rest

split_on-cons : (sep : ℕ) (s : Bytes) → (p : Bytes) × (ps : List Bytes) × (split_on sep s ≡ p ∷ ps)
unfolding split_on
split_on-cons sep [] = ([], [], refl)
split_on-cons sep (c ∷ s) = elim (Bool-cases (c == sep)) [
  | inl e ↦ ([], split_on sep s, rw e)
  | inr e ↦ let (p, ps, eq) = split_on-cons sep s in (c ∷ p, ps, rw (e, eq))
]

-- A separator splits a text in two whose parts do not mix.
pub split_on-append :
    (sep : ℕ) (s t : Bytes) → split_on sep (s ++ (sep ∷ t)) ≡ split_on sep s ++ split_on sep t
unfolding split_on
split_on-append sep [] t = rw (==_refl sep) refl
split_on-append sep (c ∷ s) t = elim (Bool-cases (c == sep)) [
  | inl e ↦ rw (e, split_on-append sep s t) refl
  | inr e ↦ let (p, ps, eq) = split_on-cons sep s in rw (e, split_on-append sep s t, eq) refl
]

-- Behind the first list the second one is counted anew.
pub get_elem?-append_right {ℓ} :
    {A : Type ℓ} (xs ys : List A) (i : ℕ) → get_elem? (xs ++ ys) (length xs + i) ≡ get_elem? ys i
get_elem?-append_right [] ys i = let e : 0 + i ≡ i = omega arith in ap (get_elem? ys) e
get_elem?-append_right (x ∷ xs) ys i =
    let e : suc (length xs) + i ≡ suc (length xs + i) = omega arith in
    ap (get_elem? (x ∷ (xs ++ ys))) e ∙ get_elem?-append_right xs ys i
