-- ===== src/Perms/Compact.antt =====
-- What `compact_hierarchy` of middleware/perms.go keeps of a set of keys.
use mathlib.Core.List.{Perm}
use backend_pkg.Common.{
  ℕ, zero, suc, ◌+◌, ◌-◌, ◌≤◌, ◌<◌, List, [], ◌∷◌, ◌≡◌, ◌≢◌, refl, sym, ap, inl, inr, true, false,
  ◌&&◌, Bytes, ◌=ᵇ◌, =ᵇ→eq, contains, take, length, arith, Bool-cases, not, ◌∙◌, ==→eq,
}
use backend_pkg.Perms.{dot, split, join, has_permission, has_ancestor_in, seen, compact_hierarchy}
use backend_pkg.Perms.Paths.{
  covers, prefix_at, covers-prefix_at, prefix_at-covers, any_prefix→at, at→any_prefix, length-split,
}
use backend_pkg.Perms.Grants.{
  Grants, Grants→covers, covers_trans, covers_weaken, covers_cases, covers_proper-length,
  has_permission→covers, covers→has_permission,
}
use backend_pkg.Perms.Sorting.{contains-sort, contains-keep, sort-keep-perm}

contains-seen :
    (ps : List Bytes) (s : Bytes) → contains (seen ps) s ≡ (not (s =ᵇ []) && contains ps s)
unfolding seen contains
contains-seen [] s = ground arith
contains-seen (p ∷ ps) s = elim (Bool-cases (p =ᵇ s)) [
  | inl e ↦
      let same = =ᵇ→eq p s e in
      ground
        (arith, contains-seen ps s, ap (λ x. contains (seen ps) x) same, ap (λ x. x =ᵇ []) same)
  | inr e ↦ ground (arith, contains-seen ps s)
]

-- The lookup of proper ancestors, stated over keys.
ancestor_at :
    (key : Bytes) (set : List Bytes) (j : ℕ)
    → 1 ≤ j
    → j < 1 + (length (split key) - 1)
    → contains set (join (take j (split key))) ≡ true
    → (q : Bytes) × (contains set q ≡ true) × (covers false q key ≡ true)
ancestor_at key set zero lo hi c = absurd (omega arith)
ancestor_at key set (suc i) lo hi c = (
  prefix_at key i,
  unfold prefix_at in c,
  covers-prefix_at false key i (omega (arith, length-split key)),
)

has_ancestor_in→covers :
    (key : Bytes) (set : List Bytes)
    → has_ancestor_in key set ≡ true
    → (q : Bytes) × (contains set q ≡ true) × (covers false q key ≡ true)
unfolding has_ancestor_in
has_ancestor_in→covers key set h =
    let (j, lo, hi, found) = any_prefix→at set (split key) 1 (length (split key) - 1) h in
    ancestor_at key set j lo hi found

covers→has_ancestor_in :
    (key : Bytes) (set : List Bytes) (q : Bytes)
    → contains set q ≡ true
    → covers false q key ≡ true
    → has_ancestor_in key set ≡ true
unfolding has_ancestor_in prefix_at
covers→has_ancestor_in key set q c v =
    let (i, lt, eq) = prefix_at-covers false q key v in
    at→any_prefix set (split key) 1 (length (split key) - 1) (suc i) (omega arith)
      (omega (arith, length-split key)) (rw eq c)

-- Above every key of the set stands one that has no ancestor in it.
top_of :
    (n : ℕ) (set : List Bytes) (p : Bytes)
    → length p < n
    → contains set p ≡ true
    → (q : Bytes) × (contains set q ≡ true)
      × (has_ancestor_in q set ≡ false)
      × ((r : Bytes) → covers true p r ≡ true → covers true q r ≡ true)
top_of zero set p lt c = absurd (omega arith)
top_of (suc n) set p lt c = elim (Bool-cases (has_ancestor_in p set)) [
  | inl e ↦
      let (q, cq, v) = has_ancestor_in→covers p set e in
      let (q', c', none_above, above) =
        top_of n set q (omega (arith, covers_proper-length q p v)) cq in
      (q', c', none_above, λ r w. above r (covers_weaken q r (covers_trans false true q p r v w)))
  | inr e ↦ (p, c, e, λ r w. w)
]

abbrev MapOrder : (List Bytes → List Bytes) → Type 0
MapOrder order = (ps : List Bytes) → Perm (order ps) ps

-- The result does not depend on the order in which the map of the keys is visited.
compact_hierarchy_order :
    (order order' : List Bytes → List Bytes) (perms : List Bytes)
    → MapOrder order
    → MapOrder order'
    → compact_hierarchy order perms ≡ compact_hierarchy order' perms
unfolding compact_hierarchy
compact_hierarchy_order order order' perms h h' =
    sort-keep-perm _ (h (seen perms)) ∙ sym (sort-keep-perm _ (h' (seen perms)))

contains-compact :
    (order : List Bytes → List Bytes) (perms : List Bytes) (s : Bytes)
    → MapOrder order
    → contains (compact_hierarchy order perms) s
      ≡ (not (has_ancestor_in s (seen perms)) && contains (seen perms) s)
unfolding compact_hierarchy
contains-compact order perms s h =
    rw (sort-keep-perm _ (h (seen perms)), contains-sort, contains-keep)

granted_by_compact :
    (order : List Bytes → List Bytes) (perms : List Bytes) (r : Bytes)
    → MapOrder order
    → has_permission (compact_hierarchy order perms) r ≡ true
    → has_permission perms r ≡ true
granted_by_compact order perms r h e =
    let (ne, (p, c, v)) = has_permission→covers _ r e in
    covers→has_permission perms p r ne
      (ground (arith, contains-compact order perms p h, contains-seen perms p)) v

not_blank :
    (p r : Bytes) → r ≢ [] → ((t : Bytes) → r ≢ dot ∷ t) → covers true p r ≡ true → p =ᵇ [] ≡ false
unfolding ◌=ᵇ◌ covers
not_blank [] [] ne no_dot v = absurd (ne refl)
not_blank [] (c ∷ r) ne no_dot v = absurd (no_dot r (ground (arith, ==→eq c dot v)))
not_blank (a ∷ p) r ne no_dot v = refl

kept_by_compact :
    (order : List Bytes → List Bytes) (perms : List Bytes) (r : Bytes)
    → MapOrder order
    → ((t : Bytes) → r ≢ dot ∷ t)
    → has_permission perms r ≡ true
    → has_permission (compact_hierarchy order perms) r ≡ true
kept_by_compact order perms r h no_dot e =
    let (ne, (p, c, v)) = has_permission→covers perms r e in
    let in_seen : contains (seen perms) p ≡ true =
      ground (arith, contains-seen perms p, not_blank p r ne no_dot v) in
    let (q, cq, none_above, above) = top_of (suc (length p)) (seen perms) p (omega arith) in_seen in
    covers→has_permission _ q r ne (ground (arith, contains-compact order perms q h)) (above r v)

-- Compacting a set of keys changes no answer: a key is granted by the compacted set exactly when it
-- is granted by the set, for every key that does not begin with a dot.
pub has_permission-compact :
    (order : List Bytes → List Bytes) (perms : List Bytes) (r : Bytes)
    → MapOrder order
    → ((t : Bytes) → r ≢ dot ∷ t)
    → has_permission (compact_hierarchy order perms) r ≡ has_permission perms r
has_permission-compact order perms r h no_dot =
    ground (arith, granted_by_compact order perms r h, kept_by_compact order perms r h no_dot)

compact-seen :
    (order : List Bytes → List Bytes) (perms : List Bytes) (p : Bytes)
    → MapOrder order
    → contains (compact_hierarchy order perms) p ≡ true
    → (contains (seen perms) p ≡ true) × (has_ancestor_in p (seen perms) ≡ false)
compact-seen order perms p h c = ground (arith, contains-compact order perms p h)

seen-nil : (perms : List Bytes) → contains (seen perms) [] ≡ false
unfolding ◌=ᵇ◌
seen-nil perms = contains-seen perms []

no_proper_covers :
    (set : List Bytes) (p q : Bytes)
    → contains set p ≡ true
    → has_ancestor_in q set ≡ false
    → covers true p q ≡ true
    → p ≡ q
no_proper_covers set p q c none_above v = elim (covers_cases p q v) [
  | inl e ↦ e
  | inr w ↦ ground (arith, covers→has_ancestor_in q set p c w)
]

-- A compacted set holds no blank key, and a key of it grants no other key of it.
compact_hierarchy_minimal :
    (order : List Bytes → List Bytes) (perms : List Bytes) (p q : Bytes)
    → MapOrder order
    → contains (compact_hierarchy order perms) p ≡ true
    → contains (compact_hierarchy order perms) q ≡ true
    → Grants p q
    → (p ≢ []) × (p ≡ q)
compact_hierarchy_minimal order perms p q h cp cq g =
    let (in_seen, _) = compact-seen order perms p h cp in
    let (_, none_above) = compact-seen order perms q h cq in
    (
      λ e. ground (arith, seen-nil perms, ap (λ x. contains (seen perms) x) e),
      no_proper_covers (seen perms) p q in_seen none_above (Grants→covers p q g),
    )
