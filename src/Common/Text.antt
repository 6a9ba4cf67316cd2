-- ===== src/Common/Text.antt =====
-- Go strings as lists of bytes: literals, equality, membership, and what the code uses of the
-- package `strings`.
use Prim.Native.Nat.{ℕ, ◌+◌, ◌-◌}
use Prim.Native.Char.{code}
use Prim.Native.String.{String}
use mathlib.Core.Path.{◌≡◌, refl}
use mathlib.Core.Logic.{◌≢◌, inl, inr, ◌↔◌}
use mathlib.Core.Bool.{Bool, true, false, ◌&&◌, ◌||◌}
use mathlib.Core.List.{List, [], ◌∷◌, map}
use native.Mathlib.Omega.{arith}
use backend_pkg.Common.Tests.{leb, if◌then◌else◌, ◌==◌, Bool-cases}
use backend_pkg.Common.Lists.{Any}

abbrev pub Bytes : Type 0
Bytes = List ℕ

-- The bytes of an ASCII literal.
abbrev pub codes : String → Bytes
codes String.[] = []
codes (String.◌∷◌ c s) = code c ∷ codes s

infix 50 ◌=ᵇ◌
unfoldable pub ◌=ᵇ◌ : Bytes → Bytes → Bool
[] =ᵇ [] = true
[] =ᵇ (b ∷ t) = false
(a ∷ s) =ᵇ [] = false
(a ∷ s) =ᵇ (b ∷ t) = a == b && s =ᵇ t

pub =ᵇ→eq : (s t : Bytes) → s =ᵇ t ≡ true → s ≡ t
unfolding ◌=ᵇ◌
=ᵇ→eq [] [] h = refl
=ᵇ→eq [] (b ∷ t) h = cc
=ᵇ→eq (a ∷ s) [] h = cc
=ᵇ→eq (a ∷ s) (b ∷ t) h = ground (arith, =ᵇ→eq s t)

pub =ᵇ_refl : (s : Bytes) → s =ᵇ s ≡ true
unfolding ◌=ᵇ◌
=ᵇ_refl [] = refl
=ᵇ_refl (a ∷ s) = ground (arith, =ᵇ_refl s)

-- Two texts are told apart by the test exactly when they differ.
pub =ᵇ_iff : (s t : Bytes) → (s =ᵇ t ≡ true) ↔ (s ≡ t)
=ᵇ_iff s t = (=ᵇ→eq s t, λ e. rw e (=ᵇ_refl t))

pub =ᵇ-nil : (s : Bytes) → s ≢ [] → s =ᵇ [] ≡ false
unfolding ◌=ᵇ◌
=ᵇ-nil [] h = absurd (h refl)
=ᵇ-nil (c ∷ s) h = refl

-- `for _, p := range list { if p == s { return true } }`.
unfoldable pub contains : List Bytes → Bytes → Bool
unfolding ◌=ᵇ◌
contains [] s = false
contains (p ∷ ps) s = p =ᵇ s || contains ps s

pub contains→Any : (ps : List Bytes) (s : Bytes) → contains ps s ≡ true → Any (λ p. p ≡ s) ps
unfolding contains
contains→Any [] s h = cc
contains→Any (p ∷ ps) s h = elim (Bool-cases (p =ᵇ s)) [
  | inl e ↦ inl (=ᵇ→eq p s e)
  | inr e ↦ inr (contains→Any ps s (ground arith))
]

Any→contains : (ps : List Bytes) (s : Bytes) → Any (λ p. p ≡ s) ps → contains ps s ≡ true
unfolding contains
Any→contains [] s h = absurd h
Any→contains (p ∷ ps) s (inl e) = ground (arith, =ᵇ_iff p s)
Any→contains (p ∷ ps) s (inr h) = ground (arith, Any→contains ps s h)

-- `strings.ToLower` and `strings.ToUpper` on ASCII letters; every other byte stays.
abbrev pub is_upper : ℕ → Bool
is_upper c = leb b'A' c && leb c b'Z'

abbrev pub is_lower : ℕ → Bool
is_lower c = leb b'a' c && leb c b'z'

abbrev lower_byte : ℕ → ℕ
lower_byte c = if is_upper c then c + 32 else c

abbrev pub upper_byte : ℕ → ℕ
upper_byte c = if is_lower c then c - 32 else c

abbrev pub to_lower : Bytes → Bytes
to_lower = map lower_byte

abbrev pub to_upper : Bytes → Bytes
to_upper = map upper_byte

-- `strings.HasPrefix(s, p)`.
unfoldable pub has_prefix : Bytes → Bytes → Bool
has_prefix s [] = true
has_prefix [] (b ∷ p) = false
has_prefix (a ∷ s) (b ∷ p) = a == b && has_prefix s p

-- `strings.Contains(s, p)`.
unfoldable pub has_part : Bytes → Bytes → Bool
unfolding has_prefix
has_part [] p = has_prefix [] p
has_part (a ∷ s) p = has_prefix (a ∷ s) p || has_part s p

-- White space of ASCII, as `unicode.IsSpace` has it.
abbrev pub is_space : ℕ → Bool
is_space c = c == b' ' || (leb 9 c && leb c 13)

unfoldable pub trim_left : Bytes → Bytes
trim_left [] = []
trim_left (c ∷ s) = if is_space c then trim_left s else c ∷ s

abbrev pub keep_last : ℕ → Bytes → Bytes
keep_last c [] = if is_space c then [] else c ∷ []
keep_last c (d ∷ r) = c ∷ (d ∷ r)

-- The text without the white space at its end.
unfoldable pub trim_right : Bytes → Bytes
trim_right [] = []
trim_right (c ∷ s) = keep_last c (trim_right s)

-- `strings.TrimSpace`.
unfoldable pub trim_space : Bytes → Bytes
unfolding trim_left trim_right
trim_space s = trim_right (trim_left s)
