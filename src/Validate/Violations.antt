-- ===== src/Validate/Violations.antt =====
-- validate/directive.go: when a value violates a rule.
use backend_pkg.Common.{
  Bool, true, false, not, ◌&&◌, ◌||◌, List, [], ◌∷◌, Bytes, codes, ◌=ᵇ◌, contains, has_prefix,
  has_part, Option, none, some, length, ◌==◌, pos, negsuc, to_lower, to_upper,
}
use mathlib.Core.List.{reverse}
use backend_pkg.Validate.Rules.{
  GoLibrary, Rule, Arguments, is_on, below, above, luhn_check, Val, Compared, compare_values, Obj,
  get_field_value, is_nil_value, is_field_present, is_empty_value, text_test, num_test,
  own_num_test, len_test, items_test, no_match, in_range, with_arg, is_less, is_equal, is_greater,
  required_with, required_without, excluded_with, eq_field, ne_field, gt_field, lt_field, email,
  url, uuid, ip, ipv4, ipv6, mac, cidr, hostname, fqdn, base64, json_valid, jwt, lowercase,
  uppercase, credit_card, latitude, longitude, timezone, not_empty, alphanumeric, numeric, alpha,
  contains_text, not_contains, starts_with, ends_with, pattern, min, max, eq, ne, gt, lt, min_len,
  max_len, len, min_items, max_items, enum, user_exist, user_has_role,
}

unfoldable pub name_of : Rule → Bytes
name_of required_with = codes "requiredWith"
name_of required_without = codes "requiredWithout"
name_of excluded_with = codes "excludedWith"
name_of eq_field = codes "eqField"
name_of ne_field = codes "neField"
name_of gt_field = codes "gtField"
name_of lt_field = codes "ltField"
name_of email = codes "email"
name_of url = codes "url"
name_of uuid = codes "uuid"
name_of ip = codes "ip"
name_of ipv4 = codes "ipv4"
name_of ipv6 = codes "ipv6"
name_of mac = codes "mac"
name_of cidr = codes "cidr"
name_of hostname = codes "hostname"
name_of fqdn = codes "fqdn"
name_of base64 = codes "base64"
name_of json_valid = codes "jsonValid"
name_of jwt = codes "jwt"
name_of lowercase = codes "lowercase"
name_of uppercase = codes "uppercase"
name_of credit_card = codes "creditCard"
name_of latitude = codes "latitude"
name_of longitude = codes "longitude"
name_of timezone = codes "timezone"
name_of not_empty = codes "notEmpty"
name_of alphanumeric = codes "alphanumeric"
name_of numeric = codes "numeric"
name_of alpha = codes "alpha"
name_of contains_text = codes "contains"
name_of not_contains = codes "notContains"
name_of starts_with = codes "startsWith"
name_of ends_with = codes "endsWith"
name_of pattern = codes "pattern"
name_of min = codes "min"
name_of max = codes "max"
name_of eq = codes "eq"
name_of ne = codes "ne"
name_of gt = codes "gt"
name_of lt = codes "lt"
name_of min_len = codes "minLen"
name_of max_len = codes "maxLen"
name_of len = codes "len"
name_of min_items = codes "minItems"
name_of max_items = codes "maxItems"
name_of enum = codes "enum"
name_of user_exist = codes "userExist"
name_of user_has_role = codes "userHasRole"

abbrev email_regex : Bytes
email_regex = codes "^[a-zA-Z0-9._%+-]+@[a-zA-Z0-9.-]+\\.[a-zA-Z]{2,}$"

abbrev url_regex : Bytes
url_regex = codes "^(https?|ftp)://[^\\s/$.?#].[^\\s]*$"

abbrev uuid_regex : Bytes
uuid_regex = codes "^[0-9a-fA-F]{8}-[0-9a-fA-F]{4}-[0-9a-fA-F]{4}-[0-9a-fA-F]{4}-[0-9a-fA-F]{12}$"

abbrev hostname_regex : Bytes
hostname_regex =
    codes
      "^([a-zA-Z0-9]([a-zA-Z0-9-]{0,61}[a-zA-Z0-9])?\\.)*[a-zA-Z0-9]([a-zA-Z0-9-]{0,61}[a-zA-Z0-9])?$"

abbrev fqdn_regex : Bytes
fqdn_regex = codes "^([a-zA-Z0-9]([a-zA-Z0-9-]{0,61}[a-zA-Z0-9])?\\.)+[a-zA-Z]{2,}$"

abbrev jwt_regex : Bytes
jwt_regex = codes "^[A-Za-z0-9-_]+\\.[A-Za-z0-9-_]+\\.[A-Za-z0-9-_]*$"

abbrev alphanumeric_regex : Bytes
alphanumeric_regex = codes "^[a-zA-Z0-9]+$"

abbrev numeric_regex : Bytes
numeric_regex = codes "^[0-9]+$"

abbrev alpha_regex : Bytes
alpha_regex = codes "^[a-zA-Z]+$"

abbrev pub cross_rules : List Rule
cross_rules = required_with ∷ (required_without ∷ (excluded_with ∷ []))

-- The rules that need a value, in the order of the source.
abbrev pub value_rules : List Rule
value_rules =
    eq_field
    ∷ (ne_field
        ∷ (gt_field
            ∷ (lt_field
                ∷ (email
                    ∷ (url
                        ∷ (uuid
                            ∷ (ip
                                ∷ (ipv4
                                    ∷ (ipv6
                                        ∷ (mac
                                            ∷ (cidr
                                                ∷ (hostname
                                                    ∷ (fqdn
                                                        ∷ (base64
                                                            ∷ (json_valid
                                                            ∷ (jwt
                                                            ∷ (lowercase
                                                            ∷ (uppercase
                                                            ∷ (credit_card
                                                            ∷ (latitude
                                                            ∷ (longitude
                                                            ∷ (timezone
                                                            ∷ (not_empty
                                                            ∷ (alphanumeric
                                                            ∷ (numeric
                                                            ∷ (alpha
                                                            ∷ (contains_text
                                                            ∷ (not_contains
                                                            ∷ (starts_with
                                                            ∷ (ends_with
                                                            ∷ (pattern
                                                            ∷ (min
                                                            ∷ (max
                                                            ∷ (eq
                                                            ∷ (ne
                                                            ∷ (gt
                                                            ∷ (lt
                                                            ∷ (min_len
                                                            ∷ (max_len
                                                            ∷ (len
                                                            ∷ (min_items
                                                            ∷ (max_items
                                                            ∷ (enum
                                                            ∷ (user_exist ∷ (user_has_role ∷ ([]))))
                                                            ))))))))))))))))))))))))))))))))))))))))
                                                            ))

-- The suffix of a text, read from its end.
abbrev has_suffix : Bytes → Bytes → Bool
has_suffix s p = has_prefix (reverse s) (reverse p)

abbrev not_v6 : Option Bool → Bool
not_v6 none = true
not_v6 (some is_v4) = is_v4

abbrev not_v4 : Option Bool → Bool
not_v4 none = true
not_v4 (some is_v4) = not is_v4

abbrev no_ip : Option Bool → Bool
no_ip none = true
no_ip (some is_v4) = false

-- `roles_of` is the cache of the users' roles.
module _ (lib : GoLibrary) (args : Arguments lib.Num) (roles_of : Bytes → Option (List Bytes)) where
  open lib use {
    Num, num_lt, num_le, num_eq, from_int, show, compile, parse_ip, is_mac, is_cidr, is_base64,
    is_json, is_location,
  }

  abbrev on : Rule → Bool
  on r = is_on (args.flag_of r)

  abbrev format : Rule → (Bytes → Bool) → Val lib → Bool
  format r bad v = on r && text_test lib bad v

  abbrev compared : Rule → (Compared lib → Bool) → Obj lib → Val lib → Bool
  compared r bad obj v =
      with_arg lib (args.text_of r)
        (λ f. with_arg lib (get_field_value lib obj f) (λ other. bad (compare_values lib v other)))

  abbrev text_rule : Rule → (Bytes → Bytes → Bool) → Val lib → Bool
  text_rule r bad v = with_arg lib (args.text_of r) (λ p. text_test lib (bad p) v)

  abbrev lacks_user : Option (List Bytes) → Bool
  lacks_user none = true
  lacks_user (some roles) = false

  abbrev lacks_role : Bytes → Option (List Bytes) → Bool
  lacks_role role none = false
  lacks_role role (some roles) = not (contains roles role)

  unfoldable pub violates : Obj lib → Val lib → Rule → Bool
  violates obj v required_with =
      with_arg lib (args.text_of required_with)
        (λ f. is_field_present lib obj f && is_empty_value lib v)
  violates obj v required_without =
      with_arg lib (args.text_of required_without)
        (λ f. not (is_field_present lib obj f) && is_empty_value lib v)
  violates obj v excluded_with =
      with_arg lib (args.text_of excluded_with)
        (λ f. is_field_present lib obj f && not (is_empty_value lib v))
  violates obj v eq_field = compared eq_field (λ c. not (is_equal lib c)) obj v
  violates obj v ne_field = compared ne_field (is_equal lib) obj v
  violates obj v gt_field = compared gt_field (λ c. not (is_greater lib c)) obj v
  violates obj v lt_field = compared lt_field (λ c. not (is_less lib c)) obj v
  violates obj v email = format email (no_match lib email_regex) v
  violates obj v url = format url (no_match lib url_regex) v
  violates obj v uuid = format uuid (no_match lib uuid_regex) v
  violates obj v ip = format ip (λ s. no_ip (parse_ip s)) v
  violates obj v ipv4 = format ipv4 (λ s. not_v4 (parse_ip s)) v
  violates obj v ipv6 = format ipv6 (λ s. not_v6 (parse_ip s)) v
  violates obj v mac = format mac (λ s. not (is_mac s)) v
  violates obj v cidr = format cidr (λ s. not (is_cidr s)) v
  violates obj v hostname = format hostname (no_match lib hostname_regex) v
  violates obj v fqdn = format fqdn (no_match lib fqdn_regex) v
  violates obj v base64 = format base64 (λ s. not (is_base64 s)) v
  violates obj v json_valid = format json_valid (λ s. not (is_json s)) v
  violates obj v jwt = format jwt (no_match lib jwt_regex) v
  violates obj v lowercase = format lowercase (λ s. not (s =ᵇ to_lower s)) v
  violates obj v uppercase = format uppercase (λ s. not (s =ᵇ to_upper s)) v
  violates obj v credit_card = format credit_card (λ s. not (luhn_check s)) v
  violates obj v latitude =
      on latitude && not (in_range lib (from_int (negsuc 89)) (from_int (pos 90)) v)
  violates obj v longitude =
      on longitude && not (in_range lib (from_int (negsuc 179)) (from_int (pos 180)) v)
  violates obj v timezone = format timezone (λ s. not (is_location s)) v
  violates obj v not_empty = on not_empty && (not (is_nil_value lib v) && is_empty_value lib v)
  violates obj v alphanumeric = format alphanumeric (no_match lib alphanumeric_regex) v
  violates obj v numeric = format numeric (no_match lib numeric_regex) v
  violates obj v alpha = format alpha (no_match lib alpha_regex) v
  violates obj v contains_text = text_rule contains_text (λ p s. not (has_part s p)) v
  violates obj v not_contains = text_rule not_contains (λ p s. has_part s p) v
  violates obj v starts_with = text_rule starts_with (λ p s. not (has_prefix s p)) v
  violates obj v ends_with = text_rule ends_with (λ p s. not (has_suffix s p)) v
  violates obj v pattern = text_rule pattern (no_match lib) v
  violates obj v min = with_arg lib (args.num_of min) (λ n. own_num_test lib (λ x. num_lt x n) v)
  violates obj v max = with_arg lib (args.num_of max) (λ n. own_num_test lib (λ x. num_lt n x) v)
  violates obj v eq = with_arg lib (args.num_of eq) (λ n. num_test lib (λ x. not (num_eq x n)) v)
  violates obj v ne = with_arg lib (args.num_of ne) (λ n. num_test lib (λ x. num_eq x n) v)
  violates obj v gt = with_arg lib (args.num_of gt) (λ n. num_test lib (λ x. num_le x n) v)
  violates obj v lt = with_arg lib (args.num_of lt) (λ n. num_test lib (λ x. num_le n x) v)
  violates obj v min_len =
      with_arg lib (args.count_of min_len) (λ n. len_test lib (λ k. below k n) v)
  violates obj v max_len =
      with_arg lib (args.count_of max_len) (λ n. len_test lib (λ k. above k n) v)
  violates obj v len =
      with_arg lib (args.count_of len) (λ n. len_test lib (λ k. below k n || above k n) v)
  violates obj v min_items =
      with_arg lib (args.count_of min_items) (λ n. items_test lib (λ k. below k n) v)
  violates obj v max_items =
      with_arg lib (args.count_of max_items) (λ n. items_test lib (λ k. above k n) v)
  violates obj v enum = not (length args.allowed == 0) && not (contains args.allowed (show v))
  violates obj v user_exist =
      on user_exist && text_test lib (λ s. not (s =ᵇ []) && lacks_user (roles_of s)) v
  violates obj v user_has_role =
      on user_exist
      && with_arg lib (args.text_of user_has_role) (λ role.
        not (role =ᵇ []) && text_test lib (λ s. not (s =ᵇ []) && lacks_role role (roles_of s)) v)
