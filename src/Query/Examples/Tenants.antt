-- ===== src/Query/Examples/Tenants.antt =====
-- The theorems on tenants at a concrete call.
use backend_pkg.Common.{
  ◌≡◌, refl, Bool, true, false, ◌&&◌, ◌||◌, ◌==◌, List, [], ◌∷◌, ◌++◌, Bytes, codes, ◌=ᵇ◌, none,
  some, if◌then◌else◌,
}
use backend_pkg.Auth.Actor.{Actor, UserClaims, Context, present, is_super_admin, has_role}
use backend_pkg.Query.Tenant.{
  GoType, slice_of, pointer_to, struct_type, evaluate_type, Statement as Scoped, TypeCache,
  apply_scope, narrow, table_name,
}
use backend_pkg.Query.Tenant.Isolation.{IsTenantCall, passes-apply_scope, HasOwner, is_of_company}
use backend_pkg.Query.Examples.{lib, Boxed, nat_arg, bool_arg, empty}
use backend_pkg.Query.Gorm.{Truth, yes, no, unknown, is_yes}

-- Shipments belong to a company, tags are shared.
abbrev kind_of : Bytes → GoType
kind_of t =
    if t =ᵇ codes "[]*Tag"
    then slice_of (pointer_to (struct_type true true))
    else pointer_to (struct_type true false)

abbrev schema_table : Bytes → Bytes
schema_table t = codes "tags"

abbrev read_tags : Scoped
read_tags = record { unscoped = false; model = none; dest = some (codes "[]*Tag"); table = [] }

abbrev claims : UserClaims
claims = record { user_id = 3; company_id = some 8; roles = []; resource = []; issued_at = none }

abbrev pub member : Actor
member = record { id = 3; claims = some claims; is_system = false; is_guest = false }

abbrev pub request : Context
request = record { actor = present member; user_perms = none; perms_unresolved = false }

abbrev cached : TypeCache
cached = (codes "[]*Tag", evaluate_type (kind_of (codes "[]*Tag"))) ∷ []

abbrev double_quoted : Bytes → Bytes
double_quoted t = codes "\"" ++ (t ++ codes "\"")

read_tags-IsTenantCall :
    IsTenantCall kind_of schema_table read_tags request (codes "[]*Tag") member claims 8
unfolding evaluate_type table_name is_super_admin has_role ◌=ᵇ◌
read_tags-IsTenantCall = record {
  not_unscoped = refl;
  has_target = refl;
  has_tenant = refl;
  has_table = refl;
  actor_present = refl;
  is_below = refl;
  has_claims = refl;
  has_company = refl;
}

-- A tag of company 5 that is marked as the system's.
abbrev system_tag : Bytes → List Boxed → Truth
system_tag sql (nat_arg c ∷ []) = if 5 == c then yes else no
system_tag sql (nat_arg c ∷ (bool_arg true ∷ [])) = yes
system_tag sql _ = unknown

is_yes-test : (b : Bool) → is_yes (if b then yes else no) ≡ b
is_yes-test true = refl
is_yes-test false = refl

or_true : (b : Bool) → true ≡ (b || true)
or_true true = refl
or_true false = refl

system_tag-HasOwner :
    HasOwner lib double_quoted nat_arg
      (table_name schema_table read_tags (codes "[]*Tag"))
      system_tag
      (some 5)
      true
system_tag-HasOwner = record { own = λ c. is_yes-test (5 == c); shared = λ c. or_true (5 == c) }

passes-apply_scope_example :
    lib.passes
      (narrow lib double_quoted nat_arg
        (apply_scope kind_of schema_table cached read_tags request true).1
        empty)
      system_tag
    ≡ (lib.passes empty system_tag
        && (is_of_company (some 5) 8
            || (true && ((evaluate_type (kind_of (codes "[]*Tag"))).is_shared && true))))
passes-apply_scope_example =
    passes-apply_scope lib double_quoted nat_arg kind_of schema_table cached read_tags request true
      (codes "[]*Tag") member claims 8 empty system_tag (some 5) true (refl, tt)
      read_tags-IsTenantCall refl system_tag-HasOwner
