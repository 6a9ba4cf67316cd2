-- ===== src/Query/Examples/Numbers.antt =====
-- The theorem on filters of numbers at a row of age 30.
use backend_pkg.Common.{
  ℕ, ◌≡◌, refl, Bool, true, false, ◌&&◌, not, List, [], ◌∷◌, Bytes, codes, ◌=ᵇ◌, ◌==◌, ltb, leb,
  if◌then◌else◌, none, some,
}
use backend_pkg.Query.Gorm.{Truth, yes, no, unknown, is_yes}
use backend_pkg.Query.Filters.{RangeFilter}
use backend_pkg.Query.Builder.{range}
use backend_pkg.Query.Builder.Range.{among, fits, HasValue, passes-range}
use backend_pkg.Query.Examples.{lib, Boxed, nat_arg, nats_arg, empty}

abbrev truth_of_test : Bool → Truth
truth_of_test true = yes
truth_of_test false = no

is_yes_lem : (b : Bool) → is_yes (truth_of_test b) ≡ b
is_yes_lem true = refl
is_yes_lem false = refl

-- What the conditions on the column are for a row of age 30.
age_test : Bytes → ℕ → Bool
age_test sql a =
    if sql =ᵇ codes "age = ?"
    then 30 == a
    else if sql =ᵇ codes "age != ?"
    then not (30 == a)
    else if sql =ᵇ codes "age < ?"
    then ltb 30 a
    else if sql =ᵇ codes "age <= ?"
    then leb 30 a
    else if sql =ᵇ codes "age > ?"
    then ltb a 30
    else leb a 30

abbrev row : Bytes → List Boxed → Truth
row sql (nat_arg a ∷ []) = truth_of_test (age_test sql a)
row sql (nats_arg xs ∷ []) =
    truth_of_test
      (if sql =ᵇ codes "age IN ?" then among ◌==◌ ltb leb xs 30 else not (among ◌==◌ ltb leb xs 30))
row sql [] = truth_of_test (sql =ᵇ codes "age IS NOT NULL")
row sql _ = unknown

row-HasValue : HasValue ◌==◌ ltb leb lib nat_arg nats_arg (codes "age") row (some 30)
unfolding age_test ◌=ᵇ◌
row-HasValue = record {
  equal = λ a. is_yes_lem (30 == a);
  unequal = λ a. is_yes_lem (not (30 == a));
  below = λ a. is_yes_lem (ltb 30 a);
  at_most = λ a. is_yes_lem (leb 30 a);
  above = λ a. is_yes_lem (ltb a 30);
  at_least = λ a. is_yes_lem (leb a 30);
  one_of = λ xs. is_yes_lem (among ◌==◌ ltb leb xs 30);
  none_of = λ xs. is_yes_lem (not (among ◌==◌ ltb leb xs 30));
  null = refl;
  not_null = refl;
}

abbrev adult : RangeFilter ℕ
adult = record {
  equals = none;
  ne = some 40;
  in_list = [];
  not_in = 31 ∷ [];
  lt = some 65;
  lte = none;
  gt = none;
  gte = some 18;
  is_null = some false;
}

passes-range_example :
    lib.passes (range lib nat_arg nats_arg (codes "age") adult empty) row
    ≡ (lib.passes empty row && fits ◌==◌ ltb leb adult (some 30))
passes-range_example =
    passes-range ◌==◌ ltb leb lib nat_arg nats_arg (codes "age") row (some 30) row-HasValue adult
      empty refl
