-- ===== src/Query/Examples.antt =====
-- The theorems on tmsdb at concrete inputs: a database library that keeps the conditions of a
-- statement as a test on rows.
mod Tenants
mod Hooks
mod Remote
mod Numbers
use backend_pkg.Common.{
  ℕ, ℤ, pos, ◌*◌, ◌-◌, ◌≡◌, refl, Bool, true, false, ◌&&◌, ◌||◌, List, [], ◌∷◌, ◌++◌, Bytes, codes,
  ◌=ᵇ◌, Option, none, some, All, arith, Bool-cases, inl, inr, if◌then◌else◌, ◌≤◌,
}
use backend_pkg.Query.Gorm.{Gorm, Truth, yes, no, unknown, is_yes, is_no}
use backend_pkg.Query.Filters.{SortInput, order_desc, order_asc}
use backend_pkg.Query.Builder.{FilterBuilder, new_filter_builder}
use backend_pkg.Query.Logical.{apply_logical}
use backend_pkg.Query.Logical.Apply.{
  IsConjunct, meets_or, all_hold, meets_not, passes-apply_logical,
}
use backend_pkg.Query.Sort.{
  apply_sort, orders-apply_sort, sorts_of, fallback, is_nil, IsWhitelisted,
}
use backend_pkg.Query.Page.{at_page, new_pagination, new_pagination_lem, get_limit}

pub data Boxed : Type 0 where
  text_arg : Bytes → Boxed
  texts_arg : List Bytes → Boxed
  int_arg : ℤ → Boxed
  ints_arg : List ℤ → Boxed
  nat_arg : ℕ → Boxed
  nats_arg : List ℕ → Boxed
  bool_arg : Bool → Boxed

abbrev pub and3 : Truth → Truth → Truth
and3 yes b = b
and3 no b = no
and3 unknown yes = unknown
and3 unknown no = no
and3 unknown unknown = unknown

abbrev pub not3 : Truth → Truth
not3 yes = no
not3 no = yes
not3 unknown = unknown

abbrev pub or3 : Truth → Truth → Truth
or3 a b = not3 (and3 (not3 a) (not3 b))

pub and3_lem :
    (a b : Truth)
    → (is_yes (and3 a b) ≡ (is_yes a && is_yes b)) × (is_no (and3 a b) ≡ (is_no a || is_no b))
and3_lem yes b = (refl, refl)
and3_lem no b = (refl, refl)
and3_lem unknown yes = (refl, refl)
and3_lem unknown no = (refl, refl)
and3_lem unknown unknown = (refl, refl)

pub not3_lem : (a : Truth) → (is_yes (not3 a) ≡ is_no a) × (is_no (not3 a) ≡ is_yes a)
not3_lem yes = (refl, refl)
not3_lem no = (refl, refl)
not3_lem unknown = (refl, refl)

pub or3_lem : (a b : Truth) → is_yes (or3 a b) ≡ (is_yes a || is_yes b)
or3_lem a b =
    ground
      (arith, and3_lem (not3 a) (not3 b), not3_lem (and3 (not3 a) (not3 b)), not3_lem a, not3_lem b)

-- What is asked of a row.
abbrev pub Test : Type 0
Test = (Bytes → List Boxed → Truth) → Truth

-- A further condition is joined to the last alternative only.
pub record Statement : Type 0 where
  pub earlier : Option Test
  pub test : Test
  pub is_blank : Bool
  pub by : List Bytes
  pub page : Option (ℕ × ℕ)

abbrev pub empty : Statement
empty = record { earlier = none; test = λ m. yes; is_blank = true; by = []; page = none }

abbrev pub truth_of : Option Test → Test → Test
truth_of none t m = t m
truth_of (some e) t m = or3 (e m) (t m)

abbrev pub truth : Statement → Test
truth d = truth_of d.earlier d.test

abbrev pub has_no_or : Option Test → Bool
has_no_or none = true
has_no_or (some e) = false

abbrev pub join_test : Statement → Test → Statement
join_test d t = record d { test = λ m. and3 (d.test m) (t m); is_blank = false }

abbrev pub or_test : Statement → Test → Statement
or_test d t = record d { earlier = some (truth d); test = t; is_blank = false }

pub joined_lem :
    (o : Option Test) (t u : Test) (m : Bytes → List Boxed → Truth)
    → has_no_or o ≡ true
    → (is_yes (truth_of o (λ n. and3 (t n) (u n)) m) ≡ (is_yes (truth_of o t m) && is_yes (u m)))
      × (is_no (truth_of o (λ n. and3 (t n) (u n)) m) ≡ (is_no (truth_of o t m) || is_no (u m)))
joined_lem none t u m h = and3_lem (t m) (u m)
joined_lem (some e) t u m h = absurd (cc)

abbrev pub lib : Gorm
lib = record {
  DB = Statement;
  Float = ℕ;
  Time = ℕ;
  Arg = Boxed;
  text = text_arg;
  texts = texts_arg;
  int = int_arg;
  ints = ints_arg;
  float = nat_arg;
  floats = nats_arg;
  time = nat_arg;
  times = nats_arg;
  bool = bool_arg;
  fresh = λ d. empty;
  where_sql = λ d sql args. join_test d (λ m. m sql args);
  where_db = λ d e. if e.is_blank then d else join_test d (truth e);
  or_sql = λ d sql args. or_test d (λ m. m sql args);
  or_db = λ d e. if e.is_blank then d else or_test d (truth e);
  not_db = λ d e. if e.is_blank then d else join_test d (λ m. not3 (truth e m));
  order = λ d s. record d { by = d.by ++ (s ∷ []) };
  limit_offset = λ d l o. record d { page = some (l, o) };
  passes = λ d m. is_yes (truth d m);
  refutes = λ d m. is_no (truth d m);
  blank = λ d. d.is_blank;
  takes_and = λ d. has_no_or d.earlier;
  orders = λ d. d.by;
  page_of = λ d. d.page;
  passes-fresh = λ d m. refl;
  refutes-fresh = λ d m. refl;
  takes_and-fresh = λ d. refl;
  blank-fresh = λ d. refl;
  passes-where_sql = λ d sql args m h. (joined_lem d.earlier d.test (λ n. n sql args) m h).0;
  refutes-where_sql = λ d sql args m h. (joined_lem d.earlier d.test (λ n. n sql args) m h).1;
  takes_and-where_sql = λ d sql args. refl;
  blank-where_sql = λ d sql args. refl;
  passes-where_db = λ d e m h k. simp k (joined_lem d.earlier d.test (truth e) m h).0;
  takes_and-where_db =
      λ d e. elim (Bool-cases e.is_blank) [ inl h ↦ rw h refl | inr h ↦ rw h refl ];
  passes-or_db = λ d e m h k. simp k (or3_lem (truth d m) (truth e m));
  blank-or_db = λ d e h. ground arith;
  passes-or_sql = λ d sql args m h. or3_lem (truth d m) (m sql args);
  blank-or_sql = λ d sql args. refl;
  passes-not_db = λ d e m h k.
      simp
        (k, (joined_lem d.earlier d.test (λ n. not3 (truth e n)) m h).0, (not3_lem (truth e m)).0)
        refl;
  orders-order = λ d s. refl;
  page_of-limit_offset = λ d l o. refl;
}

abbrev pub users : FilterBuilder lib
users = new_filter_builder lib empty

-- A row for which the conditions of the list are true, and every other is unknown.
abbrev row_of : List Bytes → Bytes → List Boxed → Truth
row_of [] sql args = unknown
row_of (s ∷ ss) sql args = if s =ᵇ sql then yes else row_of ss sql args

abbrev pub ada : Bytes → List Boxed → Truth
ada = row_of (codes "a" ∷ codes "c" ∷ [])

-- Behind an OR at the top of a statement a condition binds to the last alternative only.
escapes :
    lib.passes
      (lib.where_sql
        (lib.or_sql (lib.where_sql empty (codes "a") []) (codes "b") [])
        (codes "d")
        [])
      ada
    ≡ true
unfolding ◌=ᵇ◌
escapes = refl

abbrev columns : List (Bytes × Bytes)
columns = (codes "createdAt", codes "created_at") ∷ ((codes "name", codes "name") ∷ [])

abbrev sorts : List (Option SortInput)
sorts =
    some (record { field = codes "created_at"; order = order_desc })
    ∷ (none ∷ (some (record { field = codes "1; DROP TABLE users"; order = order_asc }) ∷ []))

orders-apply_sort_example :
    (lib.orders (apply_sort lib users sorts columns).db
      ≡ lib.orders users.db
        ++ (if is_nil lib (sorts_of lib sorts columns)
            then fallback lib users.default_order ∷ []
            else sorts_of lib sorts columns))
    × All (IsWhitelisted lib columns) (sorts_of lib sorts columns)
orders-apply_sort_example = orders-apply_sort lib users sorts columns

new_pagination_lem_example :
    ((new_pagination (at_page (pos 10) 0) 25).total ≡ pos 25)
    × ((n : ℕ) × ((new_pagination (at_page (pos 10) 0) 25).total_pages ≡ pos n)
        × (1 ≤ n)
        × (25 ≤ n * get_limit (at_page (pos 10) 0))
        × ((n - 1) * get_limit (at_page (pos 10) 0) ≤ 25 - 1))
new_pagination_lem_example = new_pagination_lem (at_page (pos 10) 0) 25 (omega arith)

-- An input that is the text of its condition.
abbrev add_text : FilterBuilder lib → Bytes → FilterBuilder lib
add_text fb sql = record fb { db = lib.where_sql fb.db sql [] }

abbrev text_holds : Bytes → (Bytes → List Boxed → Truth) → Truth
text_holds sql m = m sql []

add_text-IsConjunct : IsConjunct lib add_text text_holds
add_text-IsConjunct = record {
  conjunct = λ fb w m h. lib.passes-where_sql fb.db w [] m h;
  refuted = λ fb w m h. lib.refutes-where_sql fb.db w [] m h;
  restricts = λ fb w. refl;
  keeps = λ fb w. refl;
}

passes-apply_logical_example :
    lib.passes
      (apply_logical lib add_text users
        (codes "a" ∷ (codes "b" ∷ []))
        (codes "c" ∷ [])
        (some (codes "d"))).db
      ada
    ≡ (lib.passes users.db ada
        && (meets_or lib add_text text_holds (codes "a" ∷ (codes "b" ∷ [])) ada
            && (all_hold lib add_text text_holds (codes "c" ∷ []) ada
                && meets_not lib add_text text_holds (some (codes "d")) ada)))
unfolding new_filter_builder
passes-apply_logical_example =
    passes-apply_logical lib add_text text_holds add_text-IsConjunct users
      (codes "a" ∷ (codes "b" ∷ [])) (codes "c" ∷ []) (some (codes "d")) ada refl
