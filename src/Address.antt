-- ===== src/Address.antt =====
-- address/state.go: the two letters of a state or a province.
pub mod Known
mod Examples
use backend_pkg.Common.{
  ℕ, Bool, true, false, List, [], ◌∷◌, ◌++◌, map, Bytes, codes, ◌=ᵇ◌, ◌==◌, if◌then◌else◌, Option,
  none, some, contains, length, lookup, get_or, to_lower, to_upper, is_space, trim_space,
}

-- The name with an accent is written in the bytes of its text.
abbrev pub state_name_to_code : List (Bytes × Bytes)
state_name_to_code =
    (codes "alabama", codes "AL")
    ∷ (codes "alaska", codes "AK")
    ∷ (codes "arizona", codes "AZ")
    ∷ (codes "arkansas", codes "AR")
    ∷ (codes "california", codes "CA")
    ∷ (codes "colorado", codes "CO")
    ∷ (codes "connecticut", codes "CT")
    ∷ (codes "delaware", codes "DE")
    ∷ (codes "florida", codes "FL")
    ∷ (codes "georgia", codes "GA")
    ∷ (codes "hawaii", codes "HI")
    ∷ (codes "idaho", codes "ID")
    ∷ (codes "illinois", codes "IL")
    ∷ (codes "indiana", codes "IN")
    ∷ (codes "iowa", codes "IA")
    ∷ (codes "kansas", codes "KS")
    ∷ (codes "kentucky", codes "KY")
    ∷ (codes "louisiana", codes "LA")
    ∷ (codes "maine", codes "ME")
    ∷ (codes "maryland", codes "MD")
    ∷ (codes "massachusetts", codes "MA")
    ∷ (codes "michigan", codes "MI")
    ∷ (codes "minnesota", codes "MN")
    ∷ (codes "mississippi", codes "MS")
    ∷ (codes "missouri", codes "MO")
    ∷ (codes "montana", codes "MT")
    ∷ (codes "nebraska", codes "NE")
    ∷ (codes "nevada", codes "NV")
    ∷ (codes "new hampshire", codes "NH")
    ∷ (codes "new jersey", codes "NJ")
    ∷ (codes "new mexico", codes "NM")
    ∷ (codes "new york", codes "NY")
    ∷ (codes "north carolina", codes "NC")
    ∷ (codes "north dakota", codes "ND")
    ∷ (codes "ohio", codes "OH")
    ∷ (codes "oklahoma", codes "OK")
    ∷ (codes "oregon", codes "OR")
    ∷ (codes "pennsylvania", codes "PA")
    ∷ (codes "rhode island", codes "RI")
    ∷ (codes "south carolina", codes "SC")
    ∷ (codes "south dakota", codes "SD")
    ∷ (codes "tennessee", codes "TN")
    ∷ (codes "texas", codes "TX")
    ∷ (codes "utah", codes "UT")
    ∷ (codes "vermont", codes "VT")
    ∷ (codes "virginia", codes "VA")
    ∷ (codes "washington", codes "WA")
    ∷ (codes "west virginia", codes "WV")
    ∷ (codes "wisconsin", codes "WI")
    ∷ (codes "wyoming", codes "WY")
    ∷ (codes "district of columbia", codes "DC")
    ∷ (codes "puerto rico", codes "PR")
    ∷ (codes "guam", codes "GU")
    ∷ (codes "american samoa", codes "AS")
    ∷ (codes "virgin islands", codes "VI")
    ∷ (codes "u.s. virgin islands", codes "VI")
    ∷ (codes "us virgin islands", codes "VI")
    ∷ (codes "northern mariana islands", codes "MP")
    ∷ (codes "federated states of micronesia", codes "FM")
    ∷ (codes "micronesia", codes "FM")
    ∷ (codes "marshall islands", codes "MH")
    ∷ (codes "palau", codes "PW")
    ∷ (codes "united states minor outlying islands", codes "UM")
    ∷ (codes "alberta", codes "AB")
    ∷ (codes "british columbia", codes "BC")
    ∷ (codes "manitoba", codes "MB")
    ∷ (codes "new brunswick", codes "NB")
    ∷ (codes "newfoundland and labrador", codes "NL")
    ∷ (codes "newfoundland", codes "NL")
    ∷ (codes "nova scotia", codes "NS")
    ∷ (codes "northwest territories", codes "NT")
    ∷ (codes "nunavut", codes "NU")
    ∷ (codes "ontario", codes "ON")
    ∷ (codes "prince edward island", codes "PE")
    ∷ (codes "quebec", codes "QC")
    ∷ ((codes "qu" ++ (0xC3 ∷ 0xA9 ∷ codes "bec")), codes "QC")
    ∷ (codes "saskatchewan", codes "SK")
    ∷ (codes "yukon", codes "YT")
    ∷ []

unfoldable pub valid_codes : List Bytes
valid_codes = map (λ e. e.1) state_name_to_code

-- `strings.Fields`: the words between white space.
abbrev onto_first : ℕ → List Bytes → List Bytes
onto_first c [] = (c ∷ []) ∷ []
onto_first c (w ∷ ws) = (c ∷ w) ∷ ws

unfoldable pub fields : Bytes → List Bytes
fields [] = []
fields (c ∷ []) = if is_space c then [] else (c ∷ []) ∷ []
fields (c ∷ (d ∷ s)) =
    let rest = fields (d ∷ s) in
    if is_space c then rest else if is_space d then (c ∷ []) ∷ rest else onto_first c rest

-- The words with one space between them.
unfoldable pub one_spaced : List Bytes → Bytes
one_spaced [] = []
one_spaced (w ∷ []) = w
one_spaced (w ∷ (v ∷ ws)) = w ++ (codes " " ++ one_spaced (v ∷ ws))

-- The code of a text whose words have one space between them.
unfoldable pub code_of : Bytes → Bytes
unfolding valid_codes contains lookup ◌=ᵇ◌
code_of s =
    if s =ᵇ []
    then []
    else if length s == 2
    then (if contains valid_codes (to_upper s) then to_upper s else [])
    else get_or [] (lookup (to_lower s) state_name_to_code)

unfoldable pub state_code : Bytes → Bytes
unfolding code_of fields one_spaced
state_code state = code_of (one_spaced (fields state))

unfoldable pub is_valid_code : Bytes → Bool
unfolding valid_codes contains
is_valid_code code = contains valid_codes (to_upper (trim_space code))

unfoldable pub normalize : Option Bytes → Option Bytes
unfolding state_code ◌=ᵇ◌
normalize none = none
normalize (some state) = if state_code state =ᵇ [] then none else some (state_code state)

unfoldable pub clean_string : Bytes → Bytes
unfolding state_code ◌=ᵇ◌
clean_string state = if state_code state =ᵇ [] then state else state_code state

unfoldable pub clean : Option Bytes → Option Bytes
unfolding state_code ◌=ᵇ◌
clean none = none
clean (some state) = some (if state_code state =ᵇ [] then state else state_code state)
