-- ===== src/Auth/Actor.antt =====
-- consts/auth_consts.go: the actor of a request and what is read from it.
use backend_pkg.Common.{
  ℕ, Bool, true, false, List, [], ◌∷◌, Bytes, codes, ◌=ᵇ◌, if◌then◌else◌, Option, none, some,
}

abbrev pub Uuid : Type 0
Uuid = ℕ

abbrev super_admin_role : Bytes
super_admin_role = codes "super_admin"

abbrev admin_role : Bytes
admin_role = codes "admin"

pub record UserClaims : Type 0 where
  pub user_id : Uuid
  pub company_id : Option Uuid
  pub roles : List Bytes
  pub resource : Bytes
  -- The second of issue, if the token has one.
  pub issued_at : Option ℕ

pub record Actor : Type 0 where
  pub id : Uuid
  pub claims : Option UserClaims
  pub is_system : Bool
  pub is_guest : Bool

-- What stands in the context under the actor's key: nothing, a nil pointer, or an actor.
pub data ActorValue : Type 0 where
  absent nil_actor : ActorValue
  present : Actor → ActorValue

-- The values of the context that the routes read.
pub record Context : Type 0 where
  pub actor : ActorValue
  pub user_perms : Option (List Bytes)
  pub perms_unresolved : Bool

abbrev system_actor : Actor
system_actor = record { id = 0; claims = none; is_system = true; is_guest = false }

unfoldable pub with_actor : Context → Option Actor → Context
with_actor ctx none = record ctx { actor = nil_actor }
with_actor ctx (some a) = record ctx { actor = present a }

with_system_actor : Context → Context
with_system_actor ctx = record ctx { actor = present system_actor }

pub with_user_perms : Context → List Bytes → Context
with_user_perms ctx perms = record ctx { user_perms = some perms }

-- A type assertion on a nil pointer succeeds, so a nil actor is no error.
pub data Got : Type 0 where
  not_found : Got
  got : Option Actor → Got

abbrev read_actor : ActorValue → Got
read_actor absent = not_found
read_actor nil_actor = got none
read_actor (present a) = got (some a)

unfoldable pub get_actor : Context → Got
get_actor ctx = read_actor ctx.actor

abbrev must_read : ActorValue → Option Actor
must_read absent = some system_actor
must_read nil_actor = none
must_read (present a) = some a

must_get_actor : Context → Option Actor
must_get_actor ctx = must_read ctx.actor

unfoldable pub has_role : Bytes → List Bytes → Bool
has_role r [] = false
has_role r (role ∷ roles) = if role =ᵇ r then true else has_role r roles

abbrev claims_role : Bytes → Option UserClaims → Bool
claims_role r none = false
claims_role r (some c) = has_role r c.roles

unfoldable pub is_super_admin : Actor → Bool
is_super_admin a = claims_role super_admin_role a.claims

pub is_admin : Actor → Bool
is_admin a = claims_role admin_role a.claims

abbrev pub claims_company : Option UserClaims → Option Uuid
claims_company none = none
claims_company (some c) = c.company_id

unfoldable pub get_company_id : Actor → Option Uuid
get_company_id a = claims_company a.claims
