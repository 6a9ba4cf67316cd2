-- ===== src/Perms/Grants.antt =====
-- What `has_permission` and its two relatives of middleware/perms.go decide.
use backend_pkg.Common.{
  ℕ, zero, suc, ◌+◌, ◌≤◌, ◌<◌, List, [], ◌∷◌, ◌++◌, ◌≡◌, ◌≢◌, ◌↔◌, refl, ap, ◌⊎◌, inl, inr, Bool,
  true, false, ◌&&◌, Bytes, contains, contains→Any, length-append, take, length, All, Any, arith,
  Bool-cases, ==→eq, ==_refl,
}
use backend_pkg.Perms.{dot, split, join, has_permission, has_any_permission, has_all_permissions}
use backend_pkg.Perms.Paths.{
  covers, prefix_at, covers-prefix_at, prefix_at-covers, any_prefix→at, at→any_prefix, length-split,
}

-- A key grants itself and the keys below it: those that go on behind it with a dot.
abbrev pub Grants : Bytes → Bytes → Type 0
Grants p r = (p ≡ r) ⊎ ((t : Bytes) × (r ≡ p ++ (dot ∷ t)))

covers→Grants : (p r : Bytes) → covers true p r ≡ true → Grants p r
unfolding covers
covers→Grants [] [] h = inl refl
covers→Grants [] (c ∷ r) h = inr (r, ap (λ x. x ∷ r) (==→eq c dot h))
covers→Grants (a ∷ p) [] h = cc
covers→Grants (a ∷ p) (b ∷ r) h = elim (covers→Grants p r (ground arith)) [
  | inl e ↦ inl (ground arith)
  | inr (t, e) ↦ inr (t, ground arith)
]

covers_self : (p : Bytes) → covers true p p ≡ true
unfolding covers
covers_self [] = refl
covers_self (a ∷ p) = rw (==_refl a) (covers_self p)

covers-append : (own : Bool) (p t : Bytes) → covers own p (p ++ (dot ∷ t)) ≡ true
unfolding covers
covers-append own [] t = refl
covers-append own (a ∷ p) t = rw (==_refl a) (covers-append own p t)

pub Grants→covers : (p r : Bytes) → Grants p r → covers true p r ≡ true
Grants→covers p r (inl e) = rw (← e) (covers_self p)
Grants→covers p r (inr (t, e)) = rw e (covers-append true p t)

-- The lookup of the loop, stated over keys.
found_at :
    (perms : List Bytes) (r : Bytes) (j : ℕ)
    → 1 ≤ j
    → j < 1 + length (split r)
    → contains perms (join (take j (split r))) ≡ true
    → (p : Bytes) × (contains perms p ≡ true) × (covers true p r ≡ true)
found_at perms r zero lo hi c = absurd (omega arith)
found_at perms r (suc i) lo hi c = (
  prefix_at r i,
  unfold prefix_at in c,
  covers-prefix_at true r i (omega (arith, length-split r)),
)

pub has_permission→covers :
    (perms : List Bytes) (r : Bytes)
    → has_permission perms r ≡ true
    → (r ≢ []) × ((p : Bytes) × (contains perms p ≡ true) × (covers true p r ≡ true))
unfolding has_permission
has_permission→covers perms [] h = cc
has_permission→covers perms (c ∷ s) h =
    let (j, lo, hi, found) = any_prefix→at perms (split (c ∷ s)) 1 (length (split (c ∷ s))) h in
    (λ e. cc, found_at perms (c ∷ s) j lo hi found)

pub covers→has_permission :
    (perms : List Bytes) (p r : Bytes)
    → r ≢ []
    → contains perms p ≡ true
    → covers true p r ≡ true
    → has_permission perms r ≡ true
unfolding has_permission prefix_at
covers→has_permission perms p [] ne h c = absurd (ne refl)
covers→has_permission perms p (b ∷ s) ne h c =
    let (i, lt, eq) = prefix_at-covers true p (b ∷ s) c in
    at→any_prefix perms (split (b ∷ s)) 1 (length (split (b ∷ s))) (suc i) (omega arith)
      (omega (arith, length-split (b ∷ s))) (rw eq h)

-- A key is granted exactly when it is not blank and one of the held keys is that key or one of its
-- ancestors.
pub has_permission_iff :
    (perms : List Bytes) (r : Bytes)
    → (has_permission perms r ≡ true)
      ↔ ((r ≢ []) × ((p : Bytes) × (contains perms p ≡ true) × Grants p r))
has_permission_iff perms r = (
  λ h. let (ne, (p, c, v)) = has_permission→covers perms r h in (ne, (p, c, covers→Grants p r v)),
  λ h. covers→has_permission perms h.1.0 r h.0 h.1.1 (Grants→covers h.1.0 r h.1.2),
)

-- An ancestor of an ancestor is one, and is a proper one if either of the two is.
pub covers_trans :
    (a b : Bool) (p q r : Bytes)
    → covers a p q ≡ true
    → covers b q r ≡ true
    → covers (a && b) p r ≡ true
unfolding covers
covers_trans a b [] [] r h k = rw h k
covers_trans a b [] (c ∷ q) [] h k = cc
covers_trans a b [] (c ∷ q) (d ∷ r) h k = ground arith
covers_trans a b (x ∷ p) [] r h k = cc
covers_trans a b (x ∷ p) (c ∷ q) [] h k = cc
covers_trans a b (x ∷ p) (c ∷ q) (d ∷ r) h k = ground (arith, covers_trans a b p q r)

pub covers_weaken : (p r : Bytes) → covers false p r ≡ true → covers true p r ≡ true
unfolding covers
covers_weaken [] [] h = refl
covers_weaken [] (b ∷ r) h = h
covers_weaken (a ∷ p) [] h = h
covers_weaken (a ∷ p) (b ∷ r) h = ground (arith, covers_weaken p r)

-- A key that covers another is the other or is properly above it.
pub covers_cases : (p r : Bytes) → covers true p r ≡ true → (p ≡ r) ⊎ (covers false p r ≡ true)
unfolding covers
covers_cases [] [] h = inl refl
covers_cases [] (b ∷ r) h = inr h
covers_cases (a ∷ p) [] h = cc
covers_cases (a ∷ p) (b ∷ r) h = elim (covers_cases p r (ground arith)) [
  | inl e ↦ inl (ground arith)
  | inr e ↦ inr (ground arith)
]

covers-length : (own : Bool) (p r : Bytes) → covers own p r ≡ true → length p ≤ length r
unfolding covers
covers-length own [] r h = omega arith
covers-length own (a ∷ p) [] h = cc
covers-length own (a ∷ p) (b ∷ r) h = ground (arith, covers-length own p r)

pub covers_proper-length : (p r : Bytes) → covers false p r ≡ true → length p < length r
unfolding covers
covers_proper-length [] [] h = cc
covers_proper-length [] (b ∷ r) h = omega arith
covers_proper-length (a ∷ p) [] h = cc
covers_proper-length (a ∷ p) (b ∷ r) h = ground (arith, covers_proper-length p r)

append_dot-ne-nil : (r t : Bytes) → r ++ (dot ∷ t) ≢ []
append_dot-ne-nil [] t e = cc
append_dot-ne-nil (a ∷ r) t e = cc

length-below : (r t : Bytes) → length r < length (r ++ (dot ∷ t))
length-below r t = omega (arith, length-append {0} r (dot ∷ t))

contains-singleton : (p q : Bytes) → contains (p ∷ []) q ≡ true → p ≡ q
contains-singleton p q h = elim (contains→Any (p ∷ []) q h) [ inl e ↦ e | inr e ↦ absurd e ]

not_above : (r t : Bytes) → ¬ (has_permission ((r ++ (dot ∷ t)) ∷ []) r ≡ true)
not_above r t h =
    let (ne, (p, c, v)) = has_permission→covers ((r ++ (dot ∷ t)) ∷ []) r h in
    absurd (
      omega (
        arith,
        covers-length true p r v,
        length-below r t,
        ap length (contains-singleton (r ++ (dot ∷ t)) p c),
      ))

-- A held key grants every key below it, and a key below it does not grant the key itself.
pub has_permission_below :
    (perms : List Bytes) (r t : Bytes)
    → has_permission perms r ≡ true
    → (has_permission perms (r ++ (dot ∷ t)) ≡ true)
      × (has_permission ((r ++ (dot ∷ t)) ∷ []) r ≡ false)
has_permission_below perms r t h =
    let (ne, (p, c, v)) = has_permission→covers perms r h in
    (
      covers→has_permission perms p (r ++ (dot ∷ t)) (append_dot-ne-nil r t) c
          (covers_trans true true p r (r ++ (dot ∷ t)) v (covers-append true r t)),
      elim (Bool-cases (has_permission ((r ++ (dot ∷ t)) ∷ []) r)) [
        | inl e ↦ absurd (not_above r t e)
        | inr e ↦ e
      ],
    )

granted→All :
    (perms required : List Bytes)
    → has_all_permissions perms required ≡ true
    → All (λ r. has_permission perms r ≡ true) required
unfolding has_all_permissions
granted→All perms [] h = tt
granted→All perms (r ∷ rs) h = (ground arith, granted→All perms rs (ground arith))

All→granted :
    (perms required : List Bytes)
    → All (λ r. has_permission perms r ≡ true) required
    → has_all_permissions perms required ≡ true
unfolding has_all_permissions
All→granted perms [] h = refl
All→granted perms (r ∷ rs) (h, hs) = rw h (All→granted perms rs hs)

granted→Any :
    (perms required : List Bytes)
    → has_any_permission perms required ≡ true
    → Any (λ r. has_permission perms r ≡ true) required
unfolding has_any_permission
granted→Any perms [] h = cc
granted→Any perms (r ∷ rs) h = elim (Bool-cases (has_permission perms r)) [
  | inl e ↦ inl e
  | inr e ↦ inr (granted→Any perms rs (rw e at h))
]

Any→granted :
    (perms required : List Bytes)
    → Any (λ r. has_permission perms r ≡ true) required
    → has_any_permission perms required ≡ true
unfolding has_any_permission
Any→granted perms [] h = absurd h
Any→granted perms (r ∷ rs) (inl e) = rw e refl
Any→granted perms (r ∷ rs) (inr e) = ground (arith, Any→granted perms rs e)

-- A list of requirements is met in full exactly when each of its keys is granted, and in part exactly
-- when some key of it is.
pub has_permissions_iff :
    (perms required : List Bytes)
    → ((has_all_permissions perms required ≡ true)
        ↔ All (λ r. has_permission perms r ≡ true) required)
      × ((has_any_permission perms required ≡ true)
          ↔ Any (λ r. has_permission perms r ≡ true) required)
has_permissions_iff perms required = (
  (granted→All perms required, All→granted perms required),
  (granted→Any perms required, Any→granted perms required),
)
