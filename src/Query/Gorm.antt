-- ===== src/Query/Gorm.antt =====
-- What tmsdb/filter.go uses of the database library: the calls that build a statement, the boxing of
-- arguments, and their documented behaviour. The library is not part of the repository.
use backend_pkg.Common.{
  ℕ, ℤ, ◌≡◌, Bool, true, false, ◌&&◌, ◌||◌, List, [], ◌∷◌, ◌++◌, Bytes, Option, some,
}

-- What a condition of SQL is for a row: with a NULL it may be unknown.
pub data Truth : Type 0 where
  yes no unknown : Truth

abbrev pub is_yes : Truth → Bool
is_yes yes = true
is_yes no = false
is_yes unknown = false

abbrev pub is_no : Truth → Bool
is_no yes = false
is_no no = true
is_no unknown = false

pub record Gorm : Type 1 where
  -- A statement under construction.
  pub DB : Type 0
  pub Float : Type 0
  pub Time : Type 0
  -- An argument of any type.
  pub Arg : Type 0
  pub text : Bytes → Arg
  pub texts : List Bytes → Arg
  pub int : ℤ → Arg
  pub ints : List ℤ → Arg
  pub float : Float → Arg
  pub floats : List Float → Arg
  pub time : Time → Arg
  pub times : List Time → Arg
  pub bool : Bool → Arg
  -- `Session(&gorm.Session{NewDB: true})`, `Where(sql, args...)`, `Where(db)`, `Or(db)`, `Not(db)`.
  pub fresh : DB → DB
  pub where_sql : DB → Bytes → List Arg → DB
  pub where_db : DB → DB → DB
  pub or_sql : DB → Bytes → List Arg → DB
  pub or_db : DB → DB → DB
  pub not_db : DB → DB → DB
  pub order : DB → Bytes → DB
  pub limit_offset : DB → ℕ → ℕ → DB
  -- Given what each single condition is for a row: whether the whole of the conditions is true, so that
  -- the row passes, and whether it is false.
  pub passes : DB → (Bytes → List Arg → Truth) → Bool
  pub refutes : DB → (Bytes → List Arg → Truth) → Bool
  -- Whether a statement has no condition.
  pub blank : DB → Bool
  -- Whether a further condition is joined by AND to all that the statement has: so it is unless the
  -- statement is raw or has an OR at its top, after which AND binds to the last alternative only.
  pub takes_and : DB → Bool
  pub orders : DB → List Bytes
  pub page_of : DB → Option (ℕ × ℕ)
  pub passes-fresh : (d : DB) (meets : Bytes → List Arg → Truth) → passes (fresh d) meets ≡ true
  pub refutes-fresh : (d : DB) (meets : Bytes → List Arg → Truth) → refutes (fresh d) meets ≡ false
  pub takes_and-fresh : (d : DB) → takes_and (fresh d) ≡ true
  pub blank-fresh : (d : DB) → blank (fresh d) ≡ true
  -- A condition that the database refuses is true for no row.
  pub passes-where_sql :
      (d : DB) (sql : Bytes) (args : List Arg) (meets : Bytes → List Arg → Truth)
      → takes_and d ≡ true
      → passes (where_sql d sql args) meets ≡ (passes d meets && is_yes (meets sql args))
  pub refutes-where_sql :
      (d : DB) (sql : Bytes) (args : List Arg) (meets : Bytes → List Arg → Truth)
      → takes_and d ≡ true
      → refutes (where_sql d sql args) meets ≡ (refutes d meets || is_no (meets sql args))
  pub takes_and-where_sql :
      (d : DB) (sql : Bytes) (args : List Arg) → takes_and (where_sql d sql args) ≡ takes_and d
  pub blank-where_sql :
      (d : DB) (sql : Bytes) (args : List Arg) → blank (where_sql d sql args) ≡ false
  -- A group with conditions is one condition; OR binds less than AND.
  pub passes-where_db :
      (d e : DB) (meets : Bytes → List Arg → Truth)
      → takes_and d ≡ true
      → blank e ≡ false
      → passes (where_db d e) meets ≡ (passes d meets && passes e meets)
  pub takes_and-where_db : (d e : DB) → takes_and (where_db d e) ≡ takes_and d
  pub passes-or_db :
      (d e : DB) (meets : Bytes → List Arg → Truth)
      → blank d ≡ false
      → blank e ≡ false
      → passes (or_db d e) meets ≡ (passes d meets || passes e meets)
  pub blank-or_db : (d e : DB) → blank d ≡ false → blank (or_db d e) ≡ false
  pub passes-or_sql :
      (d : DB) (sql : Bytes) (args : List Arg) (meets : Bytes → List Arg → Truth)
      → blank d ≡ false
      → passes (or_sql d sql args) meets ≡ (passes d meets || is_yes (meets sql args))
  pub blank-or_sql : (d : DB) (sql : Bytes) (args : List Arg) → blank (or_sql d sql args) ≡ false
  -- NOT of what is unknown is unknown.
  pub passes-not_db :
      (d e : DB) (meets : Bytes → List Arg → Truth)
      → takes_and d ≡ true
      → blank e ≡ false
      → passes (not_db d e) meets ≡ (passes d meets && refutes e meets)
  pub orders-order : (d : DB) (s : Bytes) → orders (order d s) ≡ orders d ++ (s ∷ [])
  pub page_of-limit_offset : (d : DB) (l o : ℕ) → page_of (limit_offset d l o) ≡ some (l, o)
