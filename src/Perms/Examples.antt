-- ===== src/Perms/Examples.antt =====
-- The theorems on permission keys at concrete inputs.
use mathlib.Core.List.Perm
use backend_pkg.Common.{
  ◌≡◌, ◌≢◌, refl, ◌↔◌, true, false, List, [], ◌∷◌, ◌++◌, Bytes, codes, contains, ◌=ᵇ◌,
}
use backend_pkg.Perms.{
  split, join, sort, seen, str_le, dot, has_permission, compact_hierarchy, has_ancestor_in,
}
use backend_pkg.Perms.Grants.{Grants, has_permission_iff, has_permission_below}
use backend_pkg.Perms.Compact.{has_permission-compact}

abbrev held : List Bytes
held = codes "accounting" ∷ (codes "fleet.trucks" ∷ [])

-- With a descendant of a held key, a key twice and a blank one.
abbrev stored : List Bytes
stored =
    codes "accounting.pay"
    ∷ (codes "fleet.trucks" ∷ (codes "accounting" ∷ (codes "accounting" ∷ ([] ∷ []))))

grants_descendant : has_permission held (codes "accounting.pay.approve") ≡ true
unfolding has_permission split contains join
grants_descendant = refl

refuses_sibling : has_permission held (codes "fleet.trailers") ≡ false
unfolding has_permission split contains join
refuses_sibling = refl

refuses_longer_word : has_permission held (codes "accountings") ≡ false
unfolding has_permission split contains join
refuses_longer_word = refl

compacts : compact_hierarchy (λ ps. ps) stored ≡ held
unfolding compact_hierarchy has_ancestor_in sort seen ◌=ᵇ◌ contains split join str_le
compacts = refl

has_permission_iff_example : (has_permission held (codes "fleet.trucks.edit") ≡ true) ↔ (
    (codes "fleet.trucks.edit" ≢ [])
    × ((p : Bytes) × (contains held p ≡ true) × Grants p (codes "fleet.trucks.edit")))
has_permission_iff_example = has_permission_iff held (codes "fleet.trucks.edit")

has_permission_below_example :
    (has_permission held (codes "accounting" ++ (dot ∷ codes "pay")) ≡ true)
    × (has_permission ((codes "accounting" ++ (dot ∷ codes "pay")) ∷ []) (codes "accounting")
        ≡ false)
unfolding has_permission split contains join
has_permission_below_example = has_permission_below held (codes "accounting") (codes "pay") refl

has_permission-compact_example :
    has_permission (compact_hierarchy (λ ps. ps) stored) (codes "accounting.pay")
    ≡ has_permission stored (codes "accounting.pay")
has_permission-compact_example =
    has_permission-compact (λ ps. ps) stored (codes "accounting.pay") Perm.refl (λ t e. cc)
