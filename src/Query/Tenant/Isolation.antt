-- ===== src/Query/Tenant/Isolation.antt =====
-- What the hook of tmsdb/tenant_scope.go does to the statements of a company's user, and which
-- statements it leaves as they are.
use backend_pkg.Common.{
  ◌≡◌, ◌++◌, ◌==◌, codes, refl, Bool, true, false, ◌&&◌, ◌||◌, not, List, [], ◌∷◌, Bytes, ◌=ᵇ◌,
  if◌then◌else◌, Option, none, some, arith, Option-cases, inl, inr,
}
use backend_pkg.Auth.Actor.{
  present, Uuid, Actor, UserClaims, Context, Got, not_found, got, get_actor, is_super_admin,
}
use backend_pkg.Query.Gorm.{Gorm, Truth, is_yes}
use backend_pkg.Query.Tenant.{
  GoType, TenantConfig, evaluate_type, Statement, Scope, unchanged, company_only, company_or_system,
  TypeCache, target, clause, scope_of_claims, scope_of_actor, config_of, table_name, scope_target,
  apply_scope, own_sql, shared_sql, narrow,
}
use backend_pkg.Query.Tenant.Cache.{IsAccurate, config_of_lem, uncached, apply_scope_cache}

module _ (kind_of : Bytes → GoType) (schema_table : Bytes → Bytes) where
  -- What a call by a user of a company on the table of a tenant is: the hook finds a type with one of
  -- the two interfaces, a table, and an actor who is neither the system nor a super admin.
  pub record IsTenantCall (s : Statement) (ctx : Context) (t : Bytes) (a : Actor)
      (claims : UserClaims) (company : Uuid) : Type 0 where
    pub not_unscoped : s.unscoped ≡ false
    pub has_target : target s ≡ some t
    pub has_tenant :
        ((evaluate_type (kind_of t)).is_scoped || (evaluate_type (kind_of t)).is_shared) ≡ true
    pub has_table : (table_name schema_table s t =ᵇ []) ≡ false
    pub actor_present : ctx.actor ≡ present a
    pub is_below : (a.is_system || is_super_admin a) ≡ false
    pub has_claims : a.claims ≡ some claims
    pub has_company : claims.company_id ≡ some company

  -- The clause that such a call gets.
  abbrev pub tenant_clause : Bool → Bytes → Bytes → Uuid → Scope
  tenant_clause is_read t table company =
      if is_read && (evaluate_type (kind_of t)).is_shared
      then company_or_system table company
      else company_only table company

  uncached_lem :
      (s : Statement) (ctx : Context) (is_read : Bool) (t : Bytes) (a : Actor) (claims : UserClaims)
      (company : Uuid)
      → IsTenantCall s ctx t a claims company
      → uncached kind_of schema_table s ctx is_read
        ≡ tenant_clause is_read t (table_name schema_table s t) company
  unfolding apply_scope get_actor
  uncached_lem s ctx is_read t a claims company w = ground (
    arith,
    w.not_unscoped,
    w.has_target,
    w.has_tenant,
    w.has_table,
    w.actor_present,
    w.is_below,
    w.has_claims,
    w.has_company,
    config_of_lem kind_of [] t tt,
  )

  -- Whether nobody is to be narrowed: there is no actor, or it is the system or a super admin.
  abbrev pub is_above : Got → Bool
  is_above not_found = true
  is_above (got none) = true
  is_above (got (some a)) = a.is_system || is_super_admin a

  abbrev pub is_tenant_type : Option Bytes → Bool
  is_tenant_type none = false
  is_tenant_type (some t) =
      (evaluate_type (kind_of t)).is_scoped || (evaluate_type (kind_of t)).is_shared

  abbrev pub has_no_table : Statement → Option Bytes → Bool
  has_no_table s none = true
  has_no_table s (some t) = table_name schema_table s t =ᵇ []

  clause_unchanged :
      (is_read : Bool) (c : TenantConfig) (table : Bytes) (company : Uuid)
      → clause is_read c table company ≡ unchanged
      → (table =ᵇ []) ≡ true
  unfolding clause
  clause_unchanged is_read c table company e = ground arith

  claims_unchanged :
      (is_read : Bool) (c : TenantConfig) (table : Bytes) (o : Option UserClaims)
      → scope_of_claims is_read c table o ≡ unchanged
      → (table =ᵇ []) ≡ true
  unfolding scope_of_claims
  claims_unchanged is_read c table none e = cc
  claims_unchanged is_read c table (some claims) e = elim (Option-cases claims.company_id) [
    | inl k ↦ ground arith
    | inr (company, k) ↦ clause_unchanged is_read c table company (ground arith)
  ]

  actor_unchanged :
      (is_read : Bool) (c : TenantConfig) (table : Bytes) (g : Got)
      → scope_of_actor is_read c table g ≡ unchanged
      → (is_above g || (table =ᵇ [])) ≡ true
  unfolding scope_of_actor
  actor_unchanged is_read c table not_found e = refl
  actor_unchanged is_read c table (got none) e = refl
  actor_unchanged is_read c table (got (some a)) e =
      ground (arith, claims_unchanged is_read c table a.claims)

  -- Whether nothing asks for a company: the statement, its type, the actor or the missing table.
  abbrev pub is_exempt : Statement → Context → Option Bytes → Bool
  is_exempt s ctx o =
      s.unscoped || (not (is_tenant_type o) || (is_above (get_actor ctx) || has_no_table s o))

  target_unchanged :
      (s : Statement) (ctx : Context) (is_read : Bool) (o : Option Bytes)
      → (scope_target kind_of schema_table [] s ctx is_read o).1 ≡ unchanged
      → is_exempt s ctx o ≡ true
  unfolding scope_target
  target_unchanged s ctx is_read none e = ground arith
  target_unchanged s ctx is_read (some t) e = ground (
    arith,
    config_of_lem kind_of [] t tt,
    actor_unchanged is_read (config_of kind_of [] t).1 (table_name schema_table s t)
        (get_actor ctx),
  )

  -- A statement stays as it is only if it asks for that, its type is none of a tenant's, there is no
  -- actor or one above the companies, or its table is not known.
  apply_scope_unchanged :
      (cache : TypeCache) (s : Statement) (ctx : Context) (is_read : Bool)
      → IsAccurate kind_of cache
      → (apply_scope kind_of schema_table cache s ctx is_read).1 ≡ unchanged
      → is_exempt s ctx (target s) ≡ true
  unfolding apply_scope
  apply_scope_unchanged cache s ctx is_read h e = ground (
    arith,
    apply_scope_cache kind_of schema_table cache s ctx is_read h,
    target_unchanged s ctx is_read (target s),
  )

-- NULL is no company.
abbrev pub is_of_company : Option Uuid → Uuid → Bool
is_of_company none c = false
is_of_company (some o) c = o == c

module _ (g : Gorm) (quote : Bytes → Bytes) (uuid_arg : Uuid → g.Arg) where
  open g use {DB, Arg, bool, passes, takes_and, passes-where_sql}

  -- What the two conditions are documented to mean in SQL, on a row of the table with this company and
  -- this mark of the system.
  pub record HasOwner (table : Bytes) (meets : Bytes → List Arg → Truth) (owner : Option Uuid)
      (of_system : Bool) : Type 0 where
    pub own :
        (c : Uuid)
        → is_yes (meets (quote table ++ codes ".company_id = ?") (uuid_arg c ∷ []))
          ≡ is_of_company owner c
    pub shared :
        (c : Uuid)
        → is_yes (
            meets
              (codes "("
                ++ (quote table
                    ++ (codes ".company_id = ? OR " ++ (quote table ++ codes ".is_system = ?)"))))
              (uuid_arg c ∷ (bool true ∷ [])))
          ≡ (is_of_company owner c || of_system)

  module _ (kind_of : Bytes → GoType) (schema_table : Bytes → Bytes) where
    -- For a user of a company, a statement on a table of a tenant, to which conditions are joined by
    -- AND, so one that is not raw and has no OR at its top, lets through exactly the rows that it let
    -- through before and whose company is the user's or, on a read of a shared table, that are marked
    -- as the system's.
    pub passes-apply_scope :
        (cache : TypeCache) (s : Statement) (ctx : Context) (is_read : Bool) (t : Bytes) (a : Actor)
        (claims : UserClaims) (company : Uuid) (d : DB) (meets : Bytes → List Arg → Truth)
        (owner : Option Uuid) (of_system : Bool)
        → IsAccurate kind_of cache
        → IsTenantCall kind_of schema_table s ctx t a claims company
        → takes_and d ≡ true
        → HasOwner (table_name schema_table s t) meets owner of_system
        → passes
            (narrow g quote uuid_arg (apply_scope kind_of schema_table cache s ctx is_read).1 d)
            meets
          ≡ (passes d meets
              && (is_of_company owner company
                  || (is_read && ((evaluate_type (kind_of t)).is_shared && of_system))))
    unfolding narrow
    passes-apply_scope cache s ctx is_read t a claims company d meets owner of_system h w joins
          row =
        ground (
          arith,
          apply_scope_cache kind_of schema_table cache s ctx is_read h,
          uncached_lem kind_of schema_table s ctx is_read t a claims company w,
          row.own company,
          row.shared company,
          passes-where_sql d (own_sql g quote uuid_arg (table_name schema_table s t))
              (uuid_arg company ∷ []) meets joins,
          passes-where_sql d (shared_sql g quote uuid_arg (table_name schema_table s t))
              (uuid_arg company ∷ (bool true ∷ [])) meets joins,
        )
