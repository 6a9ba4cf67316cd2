-- ===== src/Query/Examples/Hooks.antt =====
-- The theorems on the hooks of tenants at concrete rows.
use backend_pkg.Common.{◌≡◌, ◌≢◌, refl, false, some, ◌=ᵇ◌}
use backend_pkg.Auth.Actor.{get_actor, has_role, is_super_admin}
use backend_pkg.Query.Tenant.Hooks.Company.{
  CompanyBase, nil_uuid, CompanyOf, before_create_sound, before_create as create_scoped,
}
use backend_pkg.Query.Tenant.Hooks.Shared.{
  SharedTenantBase, Created, before_create, before_create_owner,
}
use backend_pkg.Query.Examples.Tenants.{request, member}

abbrev new_row : CompanyBase
new_row = record { company_id = 0 }

abbrev own_row : CompanyBase
own_row = record { company_id = 8 }

before_create_sound_example :
    (own_row.company_id ≢ nil_uuid)
    × ((new_row.company_id ≢ nil_uuid) → own_row ≡ new_row)
    × (new_row.company_id ≡ nil_uuid → CompanyOf (some member) 8)
unfolding create_scoped get_actor is_super_admin has_role ◌=ᵇ◌
before_create_sound_example = before_create_sound new_row own_row request refl

-- A row that claims another company.
abbrev foreign_row : SharedTenantBase
foreign_row = record { company_id = some 9; is_system = false }

abbrev kept_row : SharedTenantBase
kept_row = record { company_id = some 8; is_system = false }

before_create_owner_example : Created foreign_row kept_row (some member)
unfolding before_create get_actor is_super_admin has_role ◌=ᵇ◌
before_create_owner_example = before_create_owner foreign_row kept_row request refl
