-- ===== src/Query/Tenant/Hooks/Company.antt =====
-- tmsdb/model/tenant_scoped.go: a row of one company before it is created.
use backend_pkg.Common.{
  ◌≡◌, ◌≢◌, inl, inr, false, ◌||◌, Bytes, codes, if◌then◌else◌, Option, none, some, arith, ◌==◌,
  Option-cases,
}
use backend_pkg.Auth.Actor.{Uuid, Actor, Context, get_actor, is_super_admin, claims_company}
use backend_pkg.Query.Tenant.Hooks.{Hooked, proceeds, fails, found_actor}

pub record CompanyBase : Type 0 where
  pub company_id : Uuid

abbrev pub nil_uuid : Uuid
nil_uuid = 0

abbrev uuid_or_nil : Option Uuid → Uuid
uuid_or_nil none = nil_uuid
uuid_or_nil (some c) = c

abbrev internal_without_company : Bytes
internal_without_company =
    codes "system error: internal process tried to save entity without company_id"

abbrev guest_forbidden : Bytes
guest_forbidden = codes "create is forbidden for guests"

abbrev company_not_given : Bytes
company_not_given = codes "system/superadmin must explicitly provide company_id"

abbrev no_company : Bytes
no_company = codes "actor has no company_id"

-- The company of the actor in place of the nil one.
filled : CompanyBase → Actor → CompanyBase
filled b a =
    if b.company_id == nil_uuid
    then record { company_id = uuid_or_nil (claims_company a.claims) }
    else b

by_actor : CompanyBase → Option Actor → Hooked CompanyBase
unfolding filled
by_actor b none = if b.company_id == nil_uuid then fails internal_without_company else proceeds b
by_actor b (some a) =
    if a.is_guest
    then fails guest_forbidden
    else let b' = filled b a in
      if b'.company_id == nil_uuid
      then (if is_super_admin a || a.is_system then fails company_not_given else fails no_company)
      else proceeds b'

unfoldable pub before_create : CompanyBase → Context → Hooked CompanyBase
unfolding by_actor
before_create b ctx = by_actor b (found_actor (get_actor ctx))

-- The company is that of the actor, who is no guest.
abbrev pub CompanyOf : Option Actor → Uuid → Type 0
CompanyOf none c = ⊥
CompanyOf (some a) c = (a.is_guest ≡ false) × (claims_company a.claims ≡ some c)

module _ (b b' : CompanyBase) where
  by_actor_company : (o : Option Actor) → by_actor b o ≡ proceeds b' → b'.company_id ≢ nil_uuid
  unfolding by_actor
  by_actor_company none h = ground arith
  by_actor_company (some a) h = ground arith

  by_actor_keeps :
      (o : Option Actor) → by_actor b o ≡ proceeds b' → (b.company_id ≢ nil_uuid) → b' ≡ b
  unfolding by_actor
  by_actor_keeps none h given = ground arith
  by_actor_keeps (some a) h given = ground arith

  by_actor_fills :
      (o : Option Actor)
      → by_actor b o ≡ proceeds b'
      → b.company_id ≡ nil_uuid
      → CompanyOf o b'.company_id
  unfolding by_actor
  by_actor_fills none h missing = ground arith
  by_actor_fills (some a) h missing = elim (Option-cases (claims_company a.claims)) [
    | inl e ↦ ground arith
    | inr (c, e) ↦ (ground arith, ground arith)
  ]

-- A row that is created has a company: the one it came with, whoever the actor is, or if it came with
-- none that of the actor, who is no guest.
pub before_create_sound :
    (b b' : CompanyBase) (ctx : Context)
    → before_create b ctx ≡ proceeds b'
    → (b'.company_id ≢ nil_uuid)
      × ((b.company_id ≢ nil_uuid) → b' ≡ b)
      × (b.company_id ≡ nil_uuid → CompanyOf (found_actor (get_actor ctx)) b'.company_id)
unfolding before_create
before_create_sound b b' ctx h =
    let o = found_actor (get_actor ctx) in
    (by_actor_company b b' o h, by_actor_keeps b b' o h, by_actor_fills b b' o h)
