-- ===== src/Perms/Paths.antt =====
-- The prefixes that the loop of middleware/perms.go builds from the parts of a key are the key's
-- ancestors.
use backend_pkg.Common.{
  ℕ, zero, suc, ◌+◌, ◌≤◌, ◌<◌, List, [], ◌∷◌, ◌≡◌, refl, ap, inl, inr, Bool, true, false, ◌&&◌,
  Bytes, ◌==◌, if◌then◌else◌, contains, take, length, arith, Bool-cases, ==→eq, ==_refl, ◌∙◌,
}
use backend_pkg.Perms.{dot, push, split, join, any_prefix}

-- `covers own p r`: `r` is `p` and a tail that begins with a dot; or `r` is `p`, if `own` says so.
unfoldable pub covers : Bool → Bytes → Bytes → Bool
covers own [] [] = own
covers own [] (c ∷ r) = c == dot
covers own (a ∷ p) [] = false
covers own (a ∷ p) (b ∷ r) = a == b && covers own p r

abbrev dots : Bytes → ℕ
dots [] = 0
dots (c ∷ s) = if c == dot then suc (dots s) else dots s

split-cons : (s : Bytes) → (p : Bytes) × (ps : List Bytes) × (split s ≡ p ∷ ps)
unfolding split
split-cons [] = ([], [], refl)
split-cons (c ∷ s) = elim (Bool-cases (c == dot)) [
  | inl e ↦ ([], split s, rw e)
  | inr e ↦ let (p, ps, eq) = split-cons s in (c ∷ p, ps, rw (e, eq))
]

pub length-split : (s : Bytes) → length (split s) ≡ suc (dots s)
unfolding split
length-split [] = refl
length-split (c ∷ s) =
    let (p, ps, eq) = split-cons s in ground (arith, eq, ap length eq, length-split s)

-- The first `i + 1` parts, joined.
unfoldable pub prefix_at : Bytes → ℕ → Bytes
prefix_at s i = join (take (suc i) (split s))

prefix_at-zero_dot : (c : ℕ) (s : Bytes) → (c == dot) ≡ true → prefix_at (c ∷ s) 0 ≡ []
unfolding prefix_at split join
prefix_at-zero_dot c s h = rw h refl

prefix_at-suc-dot :
    (c : ℕ) (s : Bytes) (i : ℕ) → (c == dot) ≡ true → prefix_at (c ∷ s) (suc i) ≡ c ∷ prefix_at s i
unfolding prefix_at split join
prefix_at-suc-dot c s i h = let (p, ps, eq) = split-cons s in rw (h, eq, ==→eq c dot h) refl

-- Of a text whose first byte is no dot, each prefix has that byte in front.
join-push :
    (c : ℕ) (p : Bytes) (ps : List Bytes) (i : ℕ)
    → join (take (suc i) (push c (p ∷ ps))) ≡ c ∷ join (take (suc i) (p ∷ ps))
unfolding join
join-push c p ps zero = refl
join-push c p [] (suc i) = refl
join-push c p (q ∷ ps) (suc i) = refl

prefix_at-cons :
    (c : ℕ) (s : Bytes) (i : ℕ) → (c == dot) ≡ false → prefix_at (c ∷ s) i ≡ c ∷ prefix_at s i
unfolding prefix_at split
prefix_at-cons c s i h = let (p, ps, eq) = split-cons s in rw (h, eq) (join-push c p ps i)

-- The places of the prefixes that are looked up: all, or all but the last, which is the key.
abbrev places : Bool → Bytes → ℕ
places true s = suc (dots s)
places false s = dots s

places-suc-dot :
    (own : Bool) (c : ℕ) (s : Bytes) → (c == dot) ≡ true → places own (c ∷ s) ≡ suc (places own s)
places-suc-dot true c s h = rw h refl
places-suc-dot false c s h = rw h refl

places-cons :
    (own : Bool) (c : ℕ) (s : Bytes) → (c == dot) ≡ false → places own (c ∷ s) ≡ places own s
places-cons true c s h = rw h refl
places-cons false c s h = rw h refl

covers-cons : (own : Bool) (c : ℕ) (p s : Bytes) → covers own (c ∷ p) (c ∷ s) ≡ covers own p s
unfolding covers
covers-cons own c p s = rw (==_refl c) refl

pub covers-prefix_at :
    (own : Bool) (s : Bytes) (i : ℕ) → i < places own s → covers own (prefix_at s i) s ≡ true
covers-prefix_at true [] zero h = unfold covers prefix_at split join in refl
covers-prefix_at true [] (suc i) h = absurd (omega arith)
covers-prefix_at false [] i h = absurd (omega arith)
covers-prefix_at own (c ∷ s) zero h = elim (Bool-cases (c == dot)) [
  | inl e ↦ rw (prefix_at-zero_dot c s e) (unfold covers in e)
  | inr e ↦
      rw (prefix_at-cons c s 0 e, covers-cons)
        (covers-prefix_at own s 0 (omega (arith, places-cons own c s e)))
]
covers-prefix_at own (c ∷ s) (suc i) h = elim (Bool-cases (c == dot)) [
  | inl e ↦
      rw (prefix_at-suc-dot c s i e, covers-cons)
        (covers-prefix_at own s i (omega (arith, places-suc-dot own c s e)))
  | inr e ↦
      rw (prefix_at-cons c s (suc i) e, covers-cons)
        (covers-prefix_at own s (suc i) (omega (arith, places-cons own c s e)))
]

covers_inv :
    (own : Bool) (a b : ℕ) (p s : Bytes)
    → covers own (a ∷ p) (b ∷ s) ≡ true
    → (a ≡ b) × (covers own p s ≡ true)
unfolding covers
covers_inv own a b p s h = ground arith

pub prefix_at-covers :
    (own : Bool) (p s : Bytes)
    → covers own p s ≡ true
    → (i : ℕ) × (i < places own s) × (prefix_at s i ≡ p)
prefix_at-covers true [] [] h = (0, omega arith, unfold prefix_at split join in refl)
prefix_at-covers false [] [] h = unfold covers in cc
prefix_at-covers own [] (c ∷ s) h =
    let e : (c == dot) ≡ true = unfold covers in h in
    (0, omega (arith, places-suc-dot own c s e), prefix_at-zero_dot c s e)
prefix_at-covers own (a ∷ p) [] h = unfold covers in cc
prefix_at-covers own (a ∷ p) (b ∷ s) h =
    let (same, below) = covers_inv own a b p s h in
    let (i, lt, eq) = prefix_at-covers own p s below in
    elim (Bool-cases (b == dot)) [
      | inl e ↦ (
        suc i,
        omega (arith, places-suc-dot own b s e),
        prefix_at-suc-dot b s i e ∙ rw (eq, same),
      )
      | inr e ↦ (i, omega (arith, places-cons own b s e), prefix_at-cons b s i e ∙ rw (eq, same))
    ]

pub any_prefix→at :
    (set parts : List Bytes) (i k : ℕ)
    → any_prefix set parts i k ≡ true
    → (j : ℕ) × (i ≤ j) × (j < i + k) × (contains set (join (take j parts)) ≡ true)
unfolding any_prefix
any_prefix→at set parts i zero h = cc
any_prefix→at set parts i (suc k) h = elim (Bool-cases (contains set (join (take i parts)))) [
  | inl e ↦ (i, omega arith, omega arith, e)
  | inr e ↦
      let (j, lo, hi, c) = any_prefix→at set parts (suc i) k (rw e at h) in
      (j, omega arith, omega arith, c)
]

pub at→any_prefix :
    (set parts : List Bytes) (i k j : ℕ)
    → i ≤ j
    → j < i + k
    → contains set (join (take j parts)) ≡ true
    → any_prefix set parts i k ≡ true
unfolding any_prefix
at→any_prefix set parts i zero j lo hi c = absurd (omega arith)
at→any_prefix set parts i (suc k) j lo hi c = ground (arith, at→any_prefix set parts (suc i) k j)
