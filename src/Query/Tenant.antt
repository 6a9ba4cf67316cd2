-- ===== src/Query/Tenant.antt =====
-- tmsdb/tenant_scope.go: the hook that narrows each statement to the company of the actor. A type is
-- known by its name; what the names stand for, the table of a type and the quoting of a name belong to
-- the language and to the database library.
pub mod Cache
pub mod Isolation
pub mod Hooks
use backend_pkg.Common.{
  ◌≡◌, refl, Bool, true, false, ◌&&◌, ◌||◌, not, List, [], ◌∷◌, ◌++◌, Bytes, codes, ◌=ᵇ◌,
  if◌then◌else◌, Option, none, some, lookup, insert, arith, All, Bool-cases, Option-cases, =ᵇ→eq,
  inl, inr, ap, sym, ◌∙◌,
}
use backend_pkg.Auth.Actor.{
  present, Uuid, Actor, UserClaims, Context, Got, not_found, got, get_actor, is_super_admin,
}
use backend_pkg.Query.Gorm.{Gorm}

-- A struct type tells which of the two interfaces of tenants its pointer has.
pub data GoType : Type 0 where
  pointer_to slice_of array_of : GoType → GoType
  struct_type : Bool → Bool → GoType
  other_type : GoType

pub record TenantConfig : Type 0 where
  pub is_scoped : Bool
  pub is_shared : Bool

unfoldable pub evaluate_type : GoType → TenantConfig
evaluate_type (pointer_to t) = evaluate_type t
evaluate_type (slice_of t) = evaluate_type t
evaluate_type (array_of t) = evaluate_type t
evaluate_type (struct_type scoped shared) = record { is_scoped = scoped; is_shared = shared }
evaluate_type other_type = record { is_scoped = false; is_shared = false }

-- The statement of a callback, apart from its conditions. `none` is a nil model or destination.
pub record Statement : Type 0 where
  pub unscoped : Bool
  pub model : Option Bytes
  pub dest : Option Bytes
  pub table : Bytes

-- What the hook does to a statement.
pub data Scope : Type 0 where
  unchanged : Scope
  add_error : Bytes → Scope
  company_only : Bytes → Uuid → Scope
  company_or_system : Bytes → Uuid → Scope
  panicked : Scope

abbrev pub TypeCache : Type 0
TypeCache = List (Bytes × TenantConfig)

abbrev pub missing_company : Bytes
missing_company = codes "tenant_plugin: non-admin actor missing company_id"

-- The model, or else the destination.
abbrev pub target : Statement → Option Bytes
target s = elim s.model [ some t ↦ some t | none ↦ s.dest ]

unfoldable pub clause : Bool → TenantConfig → Bytes → Uuid → Scope
clause is_read c table company =
    if table =ᵇ []
    then unchanged
    else if is_read && c.is_shared
    then company_or_system table company
    else company_only table company

unfoldable pub scope_of_claims : Bool → TenantConfig → Bytes → Option UserClaims → Scope
unfolding clause
scope_of_claims is_read c table none = panicked
scope_of_claims is_read c table (some claims) = elim claims.company_id [
  | none ↦ add_error missing_company
  | some company ↦ clause is_read c table company
]

unfoldable pub scope_of_actor : Bool → TenantConfig → Bytes → Got → Scope
unfolding scope_of_claims
scope_of_actor is_read c table not_found = unchanged
scope_of_actor is_read c table (got none) = unchanged
scope_of_actor is_read c table (got (some a)) =
    if a.is_system || is_super_admin a then unchanged else scope_of_claims is_read c table a.claims

unfoldable pub scope_of : Bool → TenantConfig → Bytes → Context → Scope
unfolding scope_of_actor
scope_of is_read c table ctx =
    if not c.is_scoped && not c.is_shared
    then unchanged
    else scope_of_actor is_read c table (get_actor ctx)

module _ (kind_of : Bytes → GoType) where
  -- The cached flags of a type, or its flags and the cache with them.
  with_config : TypeCache → Bytes → Option TenantConfig → TypeCache × TenantConfig
  with_config cache t (some c) = (cache, c)
  with_config cache t none = let c = evaluate_type (kind_of t) in (insert t c cache, c)

  pub config_of : TypeCache → Bytes → TypeCache × TenantConfig
  unfolding with_config
  config_of cache t = with_config cache t (lookup t cache)

module _ (schema_table : Bytes → Bytes) where
  -- The name of the table: that of the statement, or that of the schema. It is blank if there is none.
  unfoldable pub table_name : Statement → Bytes → Bytes
  table_name s t = if s.table =ᵇ [] then schema_table t else s.table

module _ (kind_of : Bytes → GoType) (schema_table : Bytes → Bytes) where
  scope_target : TypeCache → Statement → Context → Bool → Option Bytes → TypeCache × Scope
  unfolding scope_of config_of table_name
  scope_target cache s ctx is_read none = (cache, unchanged)
  scope_target cache s ctx is_read (some t) =
      let (cache', c) = config_of kind_of cache t in
      (cache', scope_of is_read c (table_name schema_table s t) ctx)

  unfoldable pub apply_scope : TypeCache → Statement → Context → Bool → TypeCache × Scope
  unfolding scope_target
  apply_scope cache s ctx is_read =
      if s.unscoped then (cache, unchanged) else scope_target cache s ctx is_read (target s)

-- The clauses as the database library is given them. `quote` quotes a name, `uuid_arg` boxes a UUID.
module _ (g : Gorm) (quote : Bytes → Bytes) (uuid_arg : Uuid → g.Arg) where
  open g use {DB, Arg, bool, where_sql, passes, passes-where_sql}

  abbrev pub own_sql : Bytes → Bytes
  own_sql table = quote table ++ codes ".company_id = ?"

  abbrev pub shared_sql : Bytes → Bytes
  shared_sql table =
      codes "("
      ++ (quote table ++ (codes ".company_id = ? OR " ++ (quote table ++ codes ".is_system = ?)")))

  -- An error stops the statement, so its conditions no longer matter.
  pub narrow : Scope → DB → DB
  narrow unchanged d = d
  narrow (add_error e) d = d
  narrow panicked d = d
  narrow (company_only table c) d = where_sql d (own_sql table) (uuid_arg c ∷ [])
  narrow (company_or_system table c) d =
      where_sql d (shared_sql table) (uuid_arg c ∷ (bool true ∷ []))
