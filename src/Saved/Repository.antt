-- ===== src/Saved/Repository.antt =====
-- The table of saved filters as savedfilter/repository.go reads and writes it. What the calls of the
-- database library do to the rows of each user is stated; the two times of a row, which the
-- library sets as well, are left out. Each call is in the context of the caller, from which the hooks of
-- tmsdb take the company.
use backend_pkg.Common.{
  ℕ, ◌≡◌, ◌≢◌, ◌++◌, Bool, true, false, List, [], ◌∷◌, Bytes, ◌=ᵇ◌, ◌==◌, ◌&&◌, Option, none, some,
  length, keep, Any,
}
use backend_pkg.Auth.Actor.{Uuid, Context}
use backend_pkg.Query.Tenant.{
  TenantConfig, Scope, unchanged, company_only, company_or_system, add_error, panicked, scope_of,
}

pub record SavedFilter : Type 0 where
  pub id : Uuid
  pub company_id : Uuid
  pub user_id : Uuid
  pub entity : Bytes
  pub name : Bytes
  pub filter : Bytes
  pub view : Bytes
  pub pinned : Bool

-- Whether a row is of an entity in a company.
abbrev pub is_of : Uuid → Bytes → SavedFilter → Bool
is_of c e f = f.company_id == c && f.entity =ᵇ e

-- A saved filter belongs to one company.
abbrev pub scoped : TenantConfig
scoped = record { is_scoped = true; is_shared = false }

-- Whether a row stands in what the scope leaves of the table.
abbrev pub in_scope : Scope → SavedFilter → Bool
in_scope unchanged f = true
in_scope (company_only table c) f = f.company_id == c
in_scope (company_or_system table c) f = f.company_id == c
in_scope (add_error e) f = false
in_scope panicked f = false

-- The rows of an entity that a caller's query finds.
abbrev pub is_counted : Bytes → Context → Bytes → SavedFilter → Bool
is_counted table ctx e f = in_scope (scope_of true scoped table ctx) f && f.entity =ᵇ e

pub record FilterRepository : Type 1 where
  pub Store : Type 0
  -- The name of the table.
  pub table : Bytes
  pub has_table : table ≢ []
  -- The rows of a user.
  pub owned : Store → Uuid → List SavedFilter
  pub find : Context → Store → Uuid → Option SavedFilter
  pub count_by_user_and_entity : Context → Store → Uuid → Bytes → Option ℕ
  pub list_by_user_and_entity : Context → Store → Uuid → Bytes → Option (List SavedFilter)
  -- The id that the database gave, unless there was an error.
  pub create : Context → Store → SavedFilter → Store × Option Uuid
  pub update : Context → Store → SavedFilter → Store × Bool
  pub delete : Context → Store → Uuid → Store × Bool
  pub find-owned :
      (ctx : Context) (s : Store) (i : Uuid) (f : SavedFilter)
      → find ctx s i ≡ some f
      → (f.id ≡ i) × Any (λ g. g ≡ f) (owned s f.user_id)
  pub count-owned :
      (ctx : Context) (s : Store) (u : Uuid) (e : Bytes) (n : ℕ)
      → count_by_user_and_entity ctx s u e ≡ some n
      → n ≡ length (keep (is_counted table ctx e) (owned s u))
  -- A row stands with those of the user that it names.
  pub create-owned :
      (ctx : Context) (s : Store) (f : SavedFilter) (i : Uuid)
      → (create ctx s f).1 ≡ some i
      → owned (create ctx s f).0 f.user_id ≡ record f { id = i } ∷ owned s f.user_id
  pub create-other :
      (ctx : Context) (s : Store) (f : SavedFilter) (u : Uuid)
      → f.user_id ≢ u
      → owned (create ctx s f).0 u ≡ owned s u
  pub create-error :
      (ctx : Context) (s : Store) (f : SavedFilter) (u : Uuid)
      → (create ctx s f).1 ≡ none
      → owned (create ctx s f).0 u ≡ owned s u
  -- The row that is found under the key is replaced, where it stands.
  pub update-owned :
      (ctx : Context) (s : Store) (f g : SavedFilter)
      → find ctx s f.id ≡ some g
      → g.user_id ≡ f.user_id
      → (update ctx s f).1 ≡ true
      → (xs ys : List SavedFilter) × (owned s f.user_id ≡ xs ++ (g ∷ ys))
        × (owned (update ctx s f).0 f.user_id ≡ xs ++ (f ∷ ys))
  pub update-other :
      (ctx : Context) (s : Store) (f g : SavedFilter) (u : Uuid)
      → find ctx s f.id ≡ some g
      → g.user_id ≡ f.user_id
      → f.user_id ≢ u
      → owned (update ctx s f).0 u ≡ owned s u
  pub update-error :
      (ctx : Context) (s : Store) (f : SavedFilter) (u : Uuid)
      → (update ctx s f).1 ≡ false
      → owned (update ctx s f).0 u ≡ owned s u
  pub delete-owned :
      (ctx : Context) (s : Store) (i : Uuid) (g : SavedFilter)
      → find ctx s i ≡ some g
      → (delete ctx s i).1 ≡ true
      → (xs ys : List SavedFilter) × (owned s g.user_id ≡ xs ++ (g ∷ ys))
        × (owned (delete ctx s i).0 g.user_id ≡ xs ++ ys)
  pub delete-other :
      (ctx : Context) (s : Store) (i : Uuid) (g : SavedFilter) (u : Uuid)
      → find ctx s i ≡ some g
      → g.user_id ≢ u
      → owned (delete ctx s i).0 u ≡ owned s u
  pub delete-error :
      (ctx : Context) (s : Store) (i u : Uuid)
      → (delete ctx s i).1 ≡ false
      → owned (delete ctx s i).0 u ≡ owned s u
