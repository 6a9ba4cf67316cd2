-- ===== src/Validate/Errors.antt =====
-- validate/errors.go: the errors that the fields of one operation gather. The map of the source holds the
-- pointers of the list, here the places in it; the lock makes each call one step.
pub mod Fields
pub mod Report
use backend_pkg.Common.{
  ℕ, zero, suc, ◌+◌, ◌==◌, Bool, true, false, List, [], ◌∷◌, ◌++◌, Bytes, Option, none, some,
  lookup, insert, length, get_elem?, if◌then◌else◌,
}

-- `V` is the type of the values.
pub record FieldValidationError (V : Type 0) : Type 0 where
  pub field : Bytes
  pub value : V
  pub rules : List Bytes
  pub messages : List Bytes

pub record ValidationErrors (V : Type 0) : Type 0 where
  pub has_errs : Bool
  pub errors : List (FieldValidationError V)
  pub error_map : List (Bytes × ℕ)

pub data FieldReply (V A : Type 0) : Type 0 where
  answered : A → FieldReply V A
  invalid : List (FieldValidationError V) → FieldReply V A

module _ {V : Type 0} where
  pub new_validation_errors : ValidationErrors V
  new_validation_errors = record { has_errs = false; errors = []; error_map = [] }

  -- The error that is there with the rules and messages of the new one behind its own.
  abbrev pub merged : FieldValidationError V → FieldValidationError V → FieldValidationError V
  merged new old = record old {
    rules = old.rules ++ new.rules;
    messages = old.messages ++ new.messages;
    value = new.value;
  }

  unfoldable pub merge_at :
      ℕ → FieldValidationError V → List (FieldValidationError V) → List (FieldValidationError V)
  merge_at i new [] = []
  merge_at zero new (e ∷ es) = merged new e ∷ es
  merge_at (suc i) new (e ∷ es) = e ∷ merge_at i new es

  abbrev pub added : ValidationErrors V → FieldValidationError V → Option ℕ → ValidationErrors V
  added ve new (some i) = record ve { has_errs = true; errors = merge_at i new ve.errors }
  added ve new none = record {
    has_errs = true;
    errors = ve.errors ++ (new ∷ []);
    error_map = insert new.field (length ve.errors) ve.error_map;
  }

  unfoldable pub add : ValidationErrors V → FieldValidationError V → ValidationErrors V
  unfolding merge_at
  add ve new = added ve new (lookup new.field ve.error_map)

  -- A collector that the context does not hold is made and lost: the caller keeps its own context.
  unfoldable pub with_validation_error :
      Option (ValidationErrors V) → FieldValidationError V → Option (ValidationErrors V)
  with_validation_error none new = none
  with_validation_error (some ve) new = some (add ve new)

  abbrev pub errors_or : {A : Type 0} → Option (ValidationErrors V) → A → FieldReply V A
  errors_or none a = answered a
  errors_or (some ve) a = if ve.has_errs then invalid ve.errors else answered a

  -- The field middleware, after the resolver has run with the collector.
  unfoldable pub middleware : {A : Type 0} → Bool → Option (ValidationErrors V) → A → FieldReply V A
  middleware is_resolver ctx a = if is_resolver then errors_or ctx a else answered a
