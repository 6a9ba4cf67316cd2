-- ===== src/Validate/Directive.antt =====
-- validate/directive.go: the rules that a value violates, gathered for the operation. The name of the
-- field comes from outside, and so do the texts that the source makes of it and of the arguments.
pub mod Report
use backend_pkg.Common.{
  ℕ, ◌≡◌, Bool, true, false, not, ◌&&◌, ◌||◌, List, [], ◌∷◌, ◌++◌, Bytes, codes, ◌=ᵇ◌,
  if◌then◌else◌, Option, none, some, length, ◌==◌,
}
use backend_pkg.Validate.Errors.{FieldValidationError, ValidationErrors, with_validation_error}
use backend_pkg.Validate.Rules.{
  GoLibrary, Rule, Arguments, Val, Obj, is_nil_value, text_test, with_arg, pattern,
}
use backend_pkg.Validate.Violations.{name_of, cross_rules, value_rules, violates}

abbrev given : Option Bytes → Option Bytes
given none = none
given (some s) = if s =ᵇ [] then none else some s

abbrev first_of : Option Bytes → Option Bytes → Bytes → Bytes
first_of (some s) global default = s
first_of none (some s) default = s
first_of none none default = default

unfoldable pub resolve_message : Option Bytes → Option Bytes → Bytes → Bytes
resolve_message rule_msg global_msg default = first_of (given rule_msg) (given global_msg) default

-- What the resolver gives, or the error of a pattern that does not compile.
pub data Returned (R : Type 0) : Type 0 where
  value : R → Returned R
  resolver_failed bad_pattern : Returned R

module _ (lib : GoLibrary) (args : Arguments lib.Num) (roles_of : Bytes → Option (List Bytes))
    (default_of : Rule → Bytes) where
  unfoldable pub message_for : Rule → Bytes
  message_for r = resolve_message (args.own_message r) args.message (default_of r)

  abbrev pub FieldError : Type 0
  FieldError = FieldValidationError (Val lib)

  unfoldable pub collect : Obj lib → Val lib → List Rule → FieldError → FieldError
  collect obj v [] e = e
  collect obj v (r ∷ rs) e = collect obj v rs (
      if violates lib args roles_of obj v r
      then record e {
        rules = e.rules ++ (name_of r ∷ []);
        messages = e.messages ++ (message_for r ∷ []);
      }
      else e)

  abbrev pub Collector : Type 0
  Collector = Option (ValidationErrors (Val lib))

  unfoldable pub store_errors : Collector → FieldError → Collector
  store_errors ctx e = if length e.rules == 0 then ctx else with_validation_error ctx e

  -- The pattern is compiled only for a text.
  unfoldable pub is_bad_pattern : Val lib → Bool
  is_bad_pattern v =
      with_arg lib (args.text_of pattern)
        (λ p. text_test lib (λ s. elim (lib.compile p) [ none ↦ true | some test ↦ false ]) v)

  abbrev pub blank_error : Bytes → Val lib → FieldError
  blank_error field v = record { field = field; value = v; rules = []; messages = [] }

  -- A bad pattern ends the directive with nothing stored: what stands before it only gathers.
  unfoldable pub checked_value : Collector → Obj lib → Val lib → FieldError → Collector × Bool
  checked_value ctx obj v e =
      if is_nil_value lib v
      then (store_errors ctx e, true)
      else if is_bad_pattern v
      then (ctx, false)
      else (store_errors ctx (collect obj v value_rules e), true)

  -- The value is returned as the resolver gave it, and checked_value as what its pointer leads to.
  unfoldable pub directive :
      {R : Type 0} → Collector → Bytes → Obj lib → Option (R × Val lib) → Collector × Returned R
  unfolding checked_value
  directive ctx field obj none = (ctx, resolver_failed)
  directive ctx field obj (some (returned, v)) =
      let (ctx', fine) =
        checked_value ctx obj v (collect obj v cross_rules (blank_error field v)) in
      (ctx', if fine then value returned else bad_pattern)
