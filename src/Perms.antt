-- ===== src/Perms.antt =====
-- middleware/perms.go: hierarchical permission keys. `accounting` grants itself and every key below
-- it; a granted set is stored without the keys that an ancestor already grants. The proofs are in
-- the modules below this one.
mod Paths
pub mod Grants
mod Sorting
pub mod Compact
mod Examples
use backend_pkg.Common.{
  ℕ, zero, suc, ◌-◌, List, [], ◌∷◌, ◌++◌, Bool, true, false, ◌&&◌, ◌||◌, not, Bytes, codes, ◌==◌,
  ◌=ᵇ◌, ltb, if◌then◌else◌, contains, take, length, keep,
}

abbrev pub dot : ℕ
dot = b'.'

-- One more byte in front of the first part.
abbrev pub push : ℕ → List Bytes → List Bytes
push c [] = (c ∷ []) ∷ []
push c (p ∷ ps) = (c ∷ p) ∷ ps

-- `strings.Split(s, ".")`: one part more than there are separators.
unfoldable pub split : Bytes → List Bytes
split [] = [] ∷ []
split (c ∷ s) = let rest = split s in if c == dot then [] ∷ rest else push c rest

-- `strings.Join(parts, ".")`.
unfoldable pub join : List Bytes → Bytes
join [] = []
join (p ∷ []) = p
join (p ∷ (q ∷ ps)) = p ++ (dot ∷ join (q ∷ ps))

-- The loop over prefixes that both functions make: `rounds` rounds from `i` on, each of which looks
-- the first `i` parts up.
pub any_prefix : List Bytes → List Bytes → ℕ → ℕ → Bool
any_prefix set parts i zero = false
any_prefix set parts i (suc rounds) =
    let rest = any_prefix set parts (suc i) rounds in
    if contains set (join (take i parts)) then true else rest

-- `for i := 1; i <= len(parts); i++`.
unfoldable pub has_permission : List Bytes → Bytes → Bool
unfolding any_prefix
has_permission user_perms [] = false
has_permission user_perms (c ∷ s) =
    let parts = split (c ∷ s) in any_prefix user_perms parts 1 (length parts)

unfoldable pub has_any_permission : List Bytes → List Bytes → Bool
has_any_permission user_perms [] = false
has_any_permission user_perms (req ∷ required) =
    if has_permission user_perms req then true else has_any_permission user_perms required

pub has_all_permissions : List Bytes → List Bytes → Bool
has_all_permissions user_perms [] = true
has_all_permissions user_perms (req ∷ required) =
    if not (has_permission user_perms req) then false else has_all_permissions user_perms required

-- `for i := 1; i < len(parts); i++`: the key itself is not looked up.
pub has_ancestor_in : Bytes → List Bytes → Bool
unfolding any_prefix
has_ancestor_in key set = let parts = split key in any_prefix set parts 1 (length parts - 1)

-- The set `seen`: no blank key, each key once. The keys stand in an order of their own, as those of
-- a Go map do.
pub seen : List Bytes → List Bytes
seen [] = []
seen (p ∷ ps) = let rest = seen ps in if p =ᵇ [] || contains rest p then rest else p ∷ rest

-- The order of `sort.Strings`: the order of the bytes.
pub str_le : Bytes → Bytes → Bool
str_le [] t = true
str_le (a ∷ s) [] = false
str_le (a ∷ s) (b ∷ t) = ltb a b || (a == b && str_le s t)

pub insert : Bytes → List Bytes → List Bytes
insert p [] = p ∷ []
insert p (q ∷ qs) = if str_le p q then p ∷ (q ∷ qs) else q ∷ insert p qs

pub sort : List Bytes → List Bytes
unfolding insert
sort [] = []
sort (p ∷ ps) = insert p (sort ps)

-- `order` is the order in which `range seen` visits the keys of the map.
pub compact_hierarchy : (List Bytes → List Bytes) → List Bytes → List Bytes
compact_hierarchy order perms =
    sort (keep (λ p. not (has_ancestor_in p (seen perms))) (order (seen perms)))
