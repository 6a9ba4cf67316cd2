-- ===== src/Query/Tenant/Hooks/Shared.antt =====
-- tmsdb/model/tenant_shared.go: a row of a company or of the system before it is written.
use backend_pkg.Common.{
  ◌≡◌, ◌⊎◌, inl, inr, Bool, true, false, ◌&&◌, not, Bytes, codes, if◌then◌else◌, Option, none, some,
  arith, is_some, Option-cases, Bool-cases,
}
use backend_pkg.Auth.Actor.{
  Uuid, Actor, UserClaims, Context, get_actor, is_super_admin, claims_company,
}
use backend_pkg.Query.Tenant.Hooks.{Hooked, proceeds, fails, panics, found_actor}

pub record SharedTenantBase : Type 0 where
  pub company_id : Option Uuid
  pub is_system : Bool

abbrev system_with_company : Bytes
system_with_company =
    codes
      "system integrity error: internal process tried to create a system record with a company_id"

abbrev tenant_without_company : Bytes
tenant_without_company =
    codes
      "system integrity error: internal process tried to create a tenant record without a company_id"

abbrev create_system_denied : Bytes
create_system_denied = codes "security error: only super admins can create system records"

abbrev update_system_denied : Bytes
update_system_denied = codes "security error: only super admins can update system records"

abbrev delete_system_denied : Bytes
delete_system_denied = codes "security error: only super admins can delete system records"

abbrev super_admin_without_company : Bytes
super_admin_without_company =
    codes "superadmin must explicitly provide company_id for non-system records"

abbrev user_without_company : Bytes
user_without_company = codes "security error: actor missing company_id"

by_process : SharedTenantBase → Hooked SharedTenantBase
by_process b =
    if b.is_system && is_some b.company_id
    then fails system_with_company
    else if not b.is_system && not (is_some b.company_id)
    then fails tenant_without_company
    else proceeds b

of_company : SharedTenantBase → Actor → Option UserClaims → Hooked SharedTenantBase
of_company b a none = panics
of_company b a (some claims) = elim claims.company_id [
  | none ↦
      if is_super_admin a then fails super_admin_without_company else fails user_without_company
  | some c ↦ proceeds (record b { company_id = some c })
]

by_user : SharedTenantBase → Actor → Hooked SharedTenantBase
unfolding of_company
by_user b a =
    if b.is_system
    then (if is_super_admin a
        then proceeds (record b { company_id = none })
        else fails create_system_denied)
    else of_company b a a.claims

by_actor : SharedTenantBase → Option Actor → Hooked SharedTenantBase
unfolding by_process by_user
by_actor b none = by_process b
by_actor b (some a) = if a.is_system then by_process b else by_user b a

unfoldable pub before_create : SharedTenantBase → Context → Hooked SharedTenantBase
unfolding by_actor
before_create b ctx = by_actor b (found_actor (get_actor ctx))

guarded : Bytes → SharedTenantBase → Option Actor → Hooked SharedTenantBase
guarded e b none = proceeds b
guarded e b (some a) =
    if a.is_system
    then proceeds b
    else if b.is_system && not (is_super_admin a)
    then fails e
    else proceeds b

unfoldable before_update : SharedTenantBase → Context → Hooked SharedTenantBase
unfolding guarded
before_update b ctx = guarded update_system_denied b (found_actor (get_actor ctx))

unfoldable before_delete : SharedTenantBase → Context → Hooked SharedTenantBase
unfolding guarded
before_delete b ctx = guarded delete_system_denied b (found_actor (get_actor ctx))

-- A row belongs to the system and to no company, or to a company.
abbrev IsOwned : SharedTenantBase → Type 0
IsOwned b =
    ((b.is_system ≡ true) × (b.company_id ≡ none))
    ⊎ ((b.is_system ≡ false) × ((c : Uuid) × (b.company_id ≡ some c)))

-- What an actor other than the system may have created: a super admin a row of the system, and anyone
-- a row of the company in the claims, whatever company the row came with.
abbrev MayCreate : Actor → SharedTenantBase → Type 0
MayCreate a b =
    ((b.is_system ≡ true) × (is_super_admin a ≡ true) × (b.company_id ≡ none))
    ⊎ ((b.is_system ≡ false)
        × (claims_company a.claims ≡ b.company_id)
        × ((c : Uuid) × (b.company_id ≡ some c)))

module _ (b b' : SharedTenantBase) where
  by_process-IsOwned : by_process b ≡ proceeds b' → IsOwned b'
  unfolding by_process
  by_process-IsOwned h = elim (Bool-cases b.is_system) [
    | inl e ↦ inl (ground arith, ground arith)
    | inr e ↦ elim (Option-cases b.company_id) [
      | inl k ↦ absurd (ground arith)
      | inr (c, k) ↦ inr (ground arith, (c, ground arith))
    ]
  ]

  of_company_sound :
      (a : Actor) (o : Option UserClaims)
      → of_company b a o ≡ proceeds b'
      → (b'.is_system ≡ b.is_system)
        × (claims_company o ≡ b'.company_id)
        × ((c : Uuid) × (b'.company_id ≡ some c))
  unfolding of_company
  of_company_sound a none h = cc
  of_company_sound a (some claims) h = elim (Option-cases claims.company_id) [
    | inl k ↦ absurd (ground arith)
    | inr (c, k) ↦ (ground arith, ground arith, (c, ground arith))
  ]

  by_user_sound : (a : Actor) → by_user b a ≡ proceeds b' → MayCreate a b'
  unfolding by_user
  by_user_sound a h = elim (Bool-cases b.is_system) [
    | inl e ↦ inl (ground arith, ground arith, ground arith)
    | inr e ↦
        let (kept, own, some_company) = of_company_sound a a.claims (ground arith) in
        inr (ground arith, own, some_company)
  ]

  -- What stands in the row that is created, for each actor.
  abbrev pub Created : Option Actor → Type 0
  Created none = IsOwned b'
  Created (some a) = if a.is_system then IsOwned b' else MayCreate a b'

  by_actor_sound : (o : Option Actor) → by_actor b o ≡ proceeds b' → Created o
  unfolding by_actor is_super_admin
  by_actor_sound none h = by_process-IsOwned h
  by_actor_sound (some a) h = elim (Bool-cases a.is_system) [
    | inl e ↦ rw e (by_process-IsOwned (rw e at h))
    | inr e ↦ rw e (by_user_sound a (rw e at h))
  ]

-- A row that the system or a process without an actor creates belongs to the system alone or to a
-- company; of any other actor, a super admin creates rows of the system and anyone else rows of the
-- company in the claims, whatever company the row came with.
pub before_create_owner :
    (b b' : SharedTenantBase) (ctx : Context)
    → before_create b ctx ≡ proceeds b'
    → Created b b' (found_actor (get_actor ctx))
unfolding before_create
before_create_owner b b' ctx h = by_actor_sound b b' (found_actor (get_actor ctx)) h

-- An actor who is neither the system nor a super admin.
abbrev is_ordinary : Option Actor → Bool
is_ordinary none = false
is_ordinary (some a) = not a.is_system && not (is_super_admin a)

guarded_denied :
    (e : Bytes) (b : SharedTenantBase) (o : Option Actor)
    → is_ordinary o ≡ true
    → b.is_system ≡ true
    → guarded e b o ≡ fails e
unfolding guarded
guarded_denied e b none h s = cc
guarded_denied e b (some a) h s = ground arith

create_denied :
    (b : SharedTenantBase) (o : Option Actor)
    → is_ordinary o ≡ true
    → b.is_system ≡ true
    → by_actor b o ≡ fails create_system_denied
unfolding by_actor
create_denied b none h s = cc
create_denied b (some a) h s = ground arith

-- A row of the system is out of the reach of an ordinary actor: creation, update and deletion of it
-- end in an error.
system_row_denied :
    (b : SharedTenantBase) (ctx : Context)
    → is_ordinary (found_actor (get_actor ctx)) ≡ true
    → b.is_system ≡ true
    → (before_create b ctx ≡ fails create_system_denied)
      × (before_update b ctx ≡ fails update_system_denied)
      × (before_delete b ctx ≡ fails delete_system_denied)
unfolding before_create before_update before_delete
system_row_denied b ctx h s =
    let o = found_actor (get_actor ctx) in
    (
      create_denied b o h s,
      guarded_denied update_system_denied b o h s,
      guarded_denied delete_system_denied b o h s,
    )
