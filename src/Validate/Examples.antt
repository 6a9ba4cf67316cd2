-- ===== src/Validate/Examples.antt =====
-- The theorems on validation at concrete inputs: numbers without fractions, and a library that takes every
-- text for well formed.
use backend_pkg.Common.{
  ℕ, ◌≡◌, ◌≢◌, refl, Bool, true, false, List, [], ◌∷◌, Bytes, codes, ◌=ᵇ◌, Option, none, some,
  lookup, ltb, leb, ◌==◌, ℤ, pos, to_ℕ, trim_space, contains,
}
use backend_pkg.Validate.Errors.{FieldValidationError, ValidationErrors, add, answered, invalid}
use backend_pkg.Validate.Errors.Fields.{IsConsistent}
use backend_pkg.Validate.Errors.Report.{
  add_all, all_rules, all_messages, rules_in, messages_in, error_for, add_all_lem,
}
use backend_pkg.Validate.Rules.{
  GoLibrary, Rule, Arguments, Value, text, luhn_check, not_empty, min_len, is_empty_value,
}
use backend_pkg.Validate.Violations.{name_of, violates}
use backend_pkg.Validate.Directive.{is_bad_pattern}
use backend_pkg.Validate.Directive.Report.{directive_reply, violated, tried, error_of, reply_to}

abbrev shown : Value ℤ ℕ → Bytes
shown v = elim v [ text s ↦ s | _ ↦ [] ]

abbrev small : GoLibrary
small = record {
  Num = ℤ;
  Item = ℕ;
  num_lt = λ a b. ltb (to_ℕ a) (to_ℕ b);
  num_le = λ a b. leb (to_ℕ a) (to_ℕ b);
  num_eq = λ a b. to_ℕ a == to_ℕ b;
  from_int = λ z. z;
  parse_float = λ s. none;
  show = shown;
  text_lt = λ s t. false;
  compile = λ p. some (λ s. true);
  parse_ip = λ s. some true;
  is_mac = λ s. true;
  is_cidr = λ s. true;
  is_base64 = λ s. true;
  is_json = λ s. true;
  is_location = λ s. true;
}

-- The name is not to be empty and has two bytes at least.
abbrev flags : Rule → Option Bool
flags r = elim r [ not_empty ↦ some true | _ ↦ none ]

abbrev counts : Rule → Option ℤ
counts r = elim r [ min_len ↦ some (pos 2) | _ ↦ none ]

abbrev args : Arguments ℤ
args = record {
  flag_of = flags;
  text_of = λ r. none;
  num_of = λ r. none;
  count_of = counts;
  allowed = [];
  own_message = λ r. none;
  message = some (codes "bad name");
}

abbrev no_roles : Bytes → Option (List Bytes)
no_roles s = none

abbrev by_name : Rule → Bytes
by_name r = name_of r

abbrev field : Bytes
field = codes "name"

abbrev blank : Value ℤ ℕ
blank = text (codes " ")

blank_violates :
    violated small args no_roles by_name none blank (tried small args no_roles by_name none blank)
    ≡ not_empty ∷ (min_len ∷ [])
unfolding violates is_empty_value trim_space ◌=ᵇ◌ contains
blank_violates = refl

abbrev clean : ValidationErrors (Value ℤ ℕ)
clean = record { has_errs = false; errors = []; error_map = [] }

abbrev blank_rules : List Rule
blank_rules =
    violated small args no_roles by_name none blank (tried small args no_roles by_name none blank)

directive_reply_example :
    (blank_rules ≡ []
      → reply_to small args no_roles by_name none blank true field clean true ≡ answered true)
    × (blank_rules ≢ []
        → reply_to small args no_roles by_name none blank true field clean true
          ≡ invalid
              (add clean
                (error_of small args no_roles by_name none blank field blank_rules)).errors)
unfolding is_bad_pattern
directive_reply_example =
    directive_reply small args no_roles by_name none blank true field true clean refl refl

abbrev first_error : FieldValidationError ℕ
first_error = record {
  field = field;
  value = 1;
  rules = codes "min" ∷ [];
  messages = codes "too small" ∷ [];
}

abbrev second_error : FieldValidationError ℕ
second_error = record {
  field = field;
  value = 2;
  rules = codes "enum" ∷ [];
  messages = codes "unknown" ∷ [];
}

abbrev none_yet : ValidationErrors ℕ
none_yet = record { has_errs = false; errors = []; error_map = [] }

none_yet-IsConsistent : IsConsistent none_yet
unfolding lookup
none_yet-IsConsistent = record { leads = λ f i h. cc; is_found = λ i e h. cc }

add_all_lem_example :
    (rules_in (error_for field (add_all none_yet (first_error ∷ (second_error ∷ []))))
      ≡ codes "min" ∷ (codes "enum" ∷ []))
    × (messages_in (error_for field (add_all none_yet (first_error ∷ (second_error ∷ []))))
        ≡ codes "too small" ∷ (codes "unknown" ∷ []))
    × IsConsistent (add_all none_yet (first_error ∷ (second_error ∷ [])))
unfolding lookup all_rules all_messages ◌=ᵇ◌
add_all_lem_example =
    add_all_lem none_yet (first_error ∷ (second_error ∷ [])) field none_yet-IsConsistent

card_accepted : luhn_check (codes "4111 1111 1111 1111") ≡ true
unfolding luhn_check
card_accepted = refl
