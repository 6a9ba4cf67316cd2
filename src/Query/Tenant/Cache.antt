-- ===== src/Query/Tenant/Cache.antt =====
-- The cache of the types in tmsdb/tenant_scope.go.
use backend_pkg.Common.{
  ◌≡◌, refl, Bool, true, false, [], ◌∷◌, Bytes, ◌=ᵇ◌, =ᵇ→eq, if◌then◌else◌, Option, none, some,
  lookup, insert, arith, All, Bool-cases, inl, inr, ap, sym, ◌∙◌,
}
use backend_pkg.Auth.Actor.{Context}
use backend_pkg.Query.Tenant.{
  GoType, TenantConfig, evaluate_type, Statement, Scope, unchanged, TypeCache, target, scope_of,
  with_config, config_of, table_name, scope_target, apply_scope,
}

module _ (kind_of : Bytes → GoType) where
  -- Every entry of the cache is what its type gives.
  abbrev pub IsAccurate : TypeCache → Type 0
  IsAccurate cache = All {A = Bytes × TenantConfig} (λ e. e.1 ≡ evaluate_type (kind_of e.0)) cache

  lookup-IsAccurate :
      (t : Bytes) (cache : TypeCache) (c : TenantConfig)
      → IsAccurate cache
      → lookup t cache ≡ some c
      → c ≡ evaluate_type (kind_of t)
  unfolding lookup
  lookup-IsAccurate t [] c h e = cc
  lookup-IsAccurate t ((j, d) ∷ cache) c (h, hs) e = elim (Bool-cases (j =ᵇ t)) [
    | inl k ↦ ground (arith, h, =ᵇ→eq j t k)
    | inr k ↦ lookup-IsAccurate t cache c hs (rw k at e)
  ]

  insert-IsAccurate :
      (t : Bytes) (cache : TypeCache)
      → IsAccurate cache
      → IsAccurate (insert t (evaluate_type (kind_of t)) cache)
  unfolding insert
  insert-IsAccurate t [] h = (refl, tt)
  insert-IsAccurate t ((j, d) ∷ cache) (h, hs) = elim (Bool-cases (j =ᵇ t)) [
    | inl k ↦ rw k (ap (λ x. evaluate_type (kind_of x)) (sym (=ᵇ→eq j t k)), hs)
    | inr k ↦ rw k (h, insert-IsAccurate t cache hs)
  ]

  with_config_lem :
      (cache : TypeCache) (t : Bytes) (o : Option TenantConfig)
      → lookup t cache ≡ o
      → IsAccurate cache
      → ((with_config kind_of cache t o).1 ≡ evaluate_type (kind_of t))
        × IsAccurate (with_config kind_of cache t o).0
  unfolding with_config
  with_config_lem cache t none e h = (refl, insert-IsAccurate t cache h)
  with_config_lem cache t (some c) e h = (lookup-IsAccurate t cache c h e, h)

  pub config_of_lem :
      (cache : TypeCache) (t : Bytes)
      → IsAccurate cache
      → ((config_of kind_of cache t).1 ≡ evaluate_type (kind_of t))
        × IsAccurate (config_of kind_of cache t).0
  unfolding config_of
  config_of_lem cache t h = with_config_lem cache t (lookup t cache) refl h

module _ (kind_of : Bytes → GoType) (schema_table : Bytes → Bytes) where
  -- What the hook does, without the cache.
  abbrev pub uncached : Statement → Context → Bool → Scope
  uncached s ctx is_read = (apply_scope kind_of schema_table [] s ctx is_read).1

  scope_target_lem :
      (cache : TypeCache) (s : Statement) (ctx : Context) (is_read : Bool) (o : Option Bytes)
      → IsAccurate kind_of cache
      → ((scope_target kind_of schema_table cache s ctx is_read o).1
          ≡ (scope_target kind_of schema_table [] s ctx is_read o).1)
        × IsAccurate kind_of (scope_target kind_of schema_table cache s ctx is_read o).0
  unfolding scope_target
  scope_target_lem cache s ctx is_read none h = (refl, h)
  scope_target_lem cache s ctx is_read (some t) h =
      let (e, k) = config_of_lem kind_of cache t h in
      let (e', _) = config_of_lem kind_of [] t tt in
      (ap (λ c. scope_of is_read c (table_name schema_table s t) ctx) (e ∙ sym e'), k)

  guarded_lem :
      (b : Bool) (p q : TypeCache × Scope) (cache : TypeCache)
      → IsAccurate kind_of cache
      → (p.1 ≡ q.1) × IsAccurate kind_of p.0
      → ((if b then (cache, unchanged) else p).1 ≡ (if b then ([], unchanged) else q).1)
        × IsAccurate kind_of (if b then (cache, unchanged) else p).0
  guarded_lem true p q cache h k = (refl, h)
  guarded_lem false p q cache h k = k

  -- The cache of the types never changes what the hook does, and stays accurate.
  pub apply_scope_cache :
      (cache : TypeCache) (s : Statement) (ctx : Context) (is_read : Bool)
      → IsAccurate kind_of cache
      → ((apply_scope kind_of schema_table cache s ctx is_read).1 ≡ uncached s ctx is_read)
        × IsAccurate kind_of (apply_scope kind_of schema_table cache s ctx is_read).0
  unfolding apply_scope
  apply_scope_cache cache s ctx is_read h =
      guarded_lem s.unscoped (scope_target kind_of schema_table cache s ctx is_read (target s))
        (scope_target kind_of schema_table [] s ctx is_read (target s)) cache h
        (scope_target_lem cache s ctx is_read (target s) h)
