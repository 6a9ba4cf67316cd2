-- ===== src/Saved/Examples.antt =====
-- savedfilter/service.go over a table of one user.
mod Table
use backend_pkg.Common.{
  ◌≡◌, ◌≢◌, refl, false, List, [], ◌∷◌, codes, ◌=ᵇ◌, none, some, arith, lookup, pos,
}
use backend_pkg.Query.Tenant.{scope_of}
use backend_pkg.Auth.Actor.{is_super_admin, has_role, Context, present, get_actor}
use backend_pkg.Saved.Repository.{SavedFilter}
use backend_pkg.Saved.{
  done, caller, user, create_request, pin_request, delete_request, WriteRequest, handle, run,
  get_by_id, CountFunc, get_count_func, check_ownership, create, set_pinned, delete_filter,
  CreateInput, CountFunc,
}
use backend_pkg.Saved.Runs.{run-others, IsWithin, run-IsWithin}
use backend_pkg.Saved.Examples.Table.{find_in, put_in, cut_in, rows_of, table}

abbrev caller_3 : Context
caller_3 = record {
  actor = present (record {
    id = 3;
    claims =
        some (record {
          user_id = 3;
          company_id = some 8;
          roles = [];
          resource = [];
          issued_at = none;
        });
    is_system = false;
    is_guest = false;
  });
  user_perms = none;
  perms_unresolved = false;
}

abbrev input : CreateInput
input = record {
  name = codes "Late";
  entity = codes "shipment";
  filter = codes "{}";
  view = codes "{}";
}

abbrev requests : List (Context × WriteRequest)
requests =
    (caller_3, create_request input)
    ∷ (caller_3, create_request input)
    ∷ (caller_3, pin_request 1 false)
    ∷ (caller_3, delete_request 2)
    ∷ []

abbrev late : SavedFilter
late = record {
  id = 1;
  company_id = 8;
  user_id = 3;
  entity = codes "shipment";
  name = codes "Late";
  filter = codes "{}";
  view = codes "{}";
  pinned = false;
}

one_left : run table requests [] ≡ late ∷ []
unfolding run handle create set_pinned delete_filter caller check_ownership get_actor find_in put_in
    cut_in ◌=ᵇ◌ scope_of is_super_admin has_role
one_left = refl

stranger : user 3 ≢ user 4
stranger e = cc

run-others_example : rows_of (run table requests []) 4 ≡ []
unfolding caller get_actor
run-others_example =
    run-others table requests [] 4 (stranger, (stranger, (stranger, (stranger, tt))))

run-IsWithin_example : IsWithin table (run table requests [])
run-IsWithin_example = run-IsWithin table requests [] (λ u c e. ground arith)

abbrev seven : CountFunc
seven filter = some (pos 7)

read_back :
    get_by_id table ((codes "shipment", seven) ∷ []) caller_3 1 (late ∷ [])
    ≡ (late ∷ [], done (late, pos 7))
unfolding get_by_id caller check_ownership get_actor find_in get_count_func lookup ◌=ᵇ◌
read_back = refl
