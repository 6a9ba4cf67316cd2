-- ===== src/Saved.antt =====
-- savedfilter/service.go: the saved filters of the users. The requests run one after another; the mutex
-- of the functions that count is left out.
pub mod Repository
pub mod Owners
pub mod Runs
mod Examples
use backend_pkg.Common.{
  ℕ, Bool, true, false, List, [], ◌∷◌, Bytes, ◌==◌, leb, if◌then◌else◌, Option, none, some, get_or,
  lookup, insert, to_lower, ℤ, pos,
}
use backend_pkg.Auth.Actor.{Uuid, UserClaims, Context, Got, not_found, got, Actor, get_actor}
use backend_pkg.Query.Tenant.Hooks.{Hooked, proceeds, fails, panics}
use backend_pkg.Query.Tenant.Hooks.Company.{CompanyBase, nil_uuid, before_create}
use backend_pkg.Saved.Repository.{SavedFilter, FilterRepository}

abbrev pub max_filters_per_user : ℕ
max_filters_per_user = 10

pub data Failure : Type 0 where
  access_denied max_filters_reached repository_error count_error panic : Failure

pub data Reply (A : Type 0) : Type 0 where
  done : A → Reply A
  refused : Failure → Reply A

pub record CreateInput : Type 0 where
  pub name : Bytes
  pub entity : Bytes
  pub filter : Bytes
  pub view : Bytes

pub record UpdateInput : Type 0 where
  pub name : Option Bytes
  pub filter : Option Bytes
  pub view : Option Bytes
  pub pinned : Option Bool

-- A function counts what a filter finds, or refused.
abbrev pub CountFunc : Type 0
CountFunc = Bytes → Option ℤ

register_count_func : Bytes → CountFunc → List (Bytes × CountFunc) → List (Bytes × CountFunc)
register_count_func entity_type fn fns = insert (to_lower entity_type) fn fns

unfoldable pub get_count_func : Bytes → List (Bytes × CountFunc) → Option CountFunc
unfolding lookup
get_count_func entity_type fns = lookup (to_lower entity_type) fns

-- Without a function the count is 0.
abbrev pub counted_by : Option CountFunc → Bytes → Option ℤ
counted_by none filter = some (pos 0)
counted_by (some fn) filter = fn filter

unfoldable pub count : List (Bytes × CountFunc) → Bytes → Bytes → Reply ℤ
unfolding get_count_func
count fns entity_type filter = elim (counted_by (get_count_func entity_type fns) filter) [
  | none ↦ refused count_error
  | some n ↦ done n
]

-- Whose id stands in the claims of the caller: that of nobody, or a nil pointer is read.
pub data CallerUser : Type 0 where
  nobody crash : CallerUser
  user : Uuid → CallerUser

abbrev pub claimed : Option UserClaims → CallerUser
claimed none = crash
claimed (some c) = user c.user_id

abbrev pub caller_of : Got → CallerUser
caller_of not_found = nobody
caller_of (got none) = crash
caller_of (got (some a)) = claimed a.claims

unfoldable pub caller : Context → CallerUser
unfolding get_actor
caller ctx = caller_of (get_actor ctx)

abbrev pub owner_check : CallerUser → SavedFilter → Option Failure
owner_check nobody f = some access_denied
owner_check crash f = some panic
owner_check (user u) f = if f.user_id == u then none else some access_denied

unfoldable pub check_ownership : Context → SavedFilter → Option Failure
unfolding caller
check_ownership ctx f = owner_check (caller ctx) f

-- The id is given by the database.
abbrev pub new_filter : Uuid → CreateInput → SavedFilter
new_filter u input = record {
  id = 0;
  company_id = nil_uuid;
  user_id = u;
  entity = input.entity;
  name = input.name;
  filter = input.filter;
  view = input.view;
  pinned = true;
}

abbrev pub changed : UpdateInput → SavedFilter → SavedFilter
changed input f = record f {
  name = get_or f.name input.name;
  filter = get_or f.filter input.filter;
  view = get_or f.view input.view;
  pinned = get_or f.pinned input.pinned;
}

with_counts : Option CountFunc → List SavedFilter → Reply (List (SavedFilter × ℤ))
with_counts fn [] = done []
with_counts fn (f ∷ fs) =
    let rest = with_counts fn fs in
    elim (counted_by fn f.filter) [
      | none ↦ refused count_error
      | some n ↦ elim rest [ refused e ↦ refused e | done cs ↦ done ((f, n) ∷ cs) ]
    ]

-- A request that may write.
pub data WriteRequest : Type 0 where
  create_request : CreateInput → WriteRequest
  update_request : Uuid → UpdateInput → WriteRequest
  pin_request : Uuid → Bool → WriteRequest
  delete_request : Uuid → WriteRequest

module _ (repo : FilterRepository) where
  open repo use {Store, find, count_by_user_and_entity, list_by_user_and_entity, update, delete}

  abbrev pub created : SavedFilter → Store × Option Uuid → Store × Reply SavedFilter
  created f (s, none) = (s, refused repository_error)
  created f (s, some i) = (s, done (record f { id = i }))

  -- The row as the hook before the creation leaves it.
  abbrev pub create_hooked :
      Context → SavedFilter → Store → Hooked CompanyBase → Store × Reply SavedFilter
  create_hooked ctx f s (fails e) = (s, refused repository_error)
  create_hooked ctx f s panics = (s, refused panic)
  create_hooked ctx f s (proceeds b) =
      let f' : SavedFilter = record f { company_id = b.company_id } in
      created f' (repo.create ctx s f')

  abbrev pub within_max :
      Context → Uuid → CreateInput → Store → Option ℕ → Store × Reply SavedFilter
  within_max ctx u input s none = (s, refused repository_error)
  within_max ctx u input s (some n) =
      if leb max_filters_per_user n
      then (s, refused max_filters_reached)
      else create_hooked ctx (new_filter u input) s
          (before_create (record { company_id = nil_uuid }) ctx)

  abbrev pub create_for : Context → CallerUser → CreateInput → Store → Store × Reply SavedFilter
  create_for ctx nobody input s = (s, refused access_denied)
  create_for ctx crash input s = (s, refused panic)
  create_for ctx (user u) input s =
      within_max ctx u input s (count_by_user_and_entity ctx s u input.entity)

  unfoldable pub create : Context → CreateInput → Store → Store × Reply SavedFilter
  unfolding caller before_create
  create ctx input s = create_for ctx (caller ctx) input s

  -- A row is read and, if it is the caller's, goes on to `next`.
  abbrev pub owned_or :
      {A : Type 0}
      → SavedFilter
      → Option Failure
      → Store
      → (SavedFilter → Store × Reply A)
      → Store × Reply A
  owned_or f none s next = next f
  owned_or f (some e) s next = (s, refused e)

  abbrev pub if_owned :
      {A : Type 0}
      → Context
      → Option SavedFilter
      → Store
      → (SavedFilter → Store × Reply A)
      → Store × Reply A
  if_owned ctx none s next = (s, refused repository_error)
  if_owned ctx (some f) s next = owned_or f (check_ownership ctx f) s next

  abbrev pub stored_as : SavedFilter → Store × Bool → Store × Reply SavedFilter
  stored_as f (s, true) = (s, done f)
  stored_as f (s, false) = (s, refused repository_error)

  unfoldable pub update_filter : Context → Uuid → UpdateInput → Store → Store × Reply SavedFilter
  unfolding check_ownership
  update_filter ctx id input s =
      if_owned ctx (find ctx s id) s
        (λ f. stored_as (changed input f) (update ctx s (changed input f)))

  abbrev pub pin : Context → Bool → Store → SavedFilter → Store × Reply SavedFilter
  pin ctx true s f =
      if f.pinned
      then (s, done f)
      else stored_as (record f { pinned = true }) (update ctx s (record f { pinned = true }))
  pin ctx false s f =
      if f.pinned
      then stored_as (record f { pinned = false }) (update ctx s (record f { pinned = false }))
      else (s, done f)

  unfoldable pub set_pinned : Context → Uuid → Bool → Store → Store × Reply SavedFilter
  unfolding check_ownership
  set_pinned ctx id pinned s = if_owned ctx (find ctx s id) s (pin ctx pinned s)

  abbrev pub dropped : Store × Bool → Store × Reply Unit
  dropped (s, true) = (s, done tt)
  dropped (s, false) = (s, refused repository_error)

  unfoldable pub delete_filter : Context → Uuid → Store → Store × Reply Unit
  unfolding check_ownership
  delete_filter ctx id s = if_owned ctx (find ctx s id) s (λ f. dropped (delete ctx s id))

  abbrev with_count : SavedFilter → Option ℤ → Reply (SavedFilter × ℤ)
  with_count f none = refused count_error
  with_count f (some n) = done (f, n)

  unfoldable pub get_by_id :
      List (Bytes × CountFunc) → Context → Uuid → Store → Store × Reply (SavedFilter × ℤ)
  unfolding check_ownership get_count_func
  get_by_id fns ctx id s =
      if_owned ctx (find ctx s id) s
        (λ f. (s, with_count f (counted_by (get_count_func f.entity fns) f.filter)))

  abbrev list_for :
      Context
      → List (Bytes × CountFunc)
      → Bytes
      → Store
      → CallerUser
      → Reply (List (SavedFilter × ℤ))
  list_for ctx fns entity_type s nobody = refused access_denied
  list_for ctx fns entity_type s crash = refused panic
  list_for ctx fns entity_type s (user u) = elim (list_by_user_and_entity ctx s u entity_type) [
    | none ↦ refused repository_error
    | some fs ↦ with_counts (get_count_func entity_type fns) fs
  ]

  list : List (Bytes × CountFunc) → Context → Bytes → Store → Reply (List (SavedFilter × ℤ))
  unfolding caller get_count_func with_counts
  list fns ctx entity_type s = list_for ctx fns entity_type s (caller ctx)

  unfoldable pub handle : Context → WriteRequest → Store → Store
  unfolding create update_filter set_pinned delete_filter
  handle ctx (create_request input) s = (create ctx input s).0
  handle ctx (update_request id input) s = (update_filter ctx id input s).0
  handle ctx (pin_request id pinned) s = (set_pinned ctx id pinned s).0
  handle ctx (delete_request id) s = (delete_filter ctx id s).0

  unfoldable pub run : List (Context × WriteRequest) → Store → Store
  unfolding handle
  run [] s = s
  run ((ctx, r) ∷ rs) s = run rs (handle ctx r s)
