-- ===== src/Address/Examples.antt =====
-- address/state.go at fixed texts.
use backend_pkg.Common.{◌≡◌, refl, ◌⊎◌, true, [], Bytes, codes, ◌=ᵇ◌, none, some, contains, lookup}
use backend_pkg.Address.{
  valid_codes, fields, one_spaced, code_of, state_code, is_valid_code, normalize, clean,
  clean_string,
}
use backend_pkg.Address.Known.{normalize-clean}

spellings :
    (state_code (codes "  NEW   york ") ≡ codes "NY")
    × (state_code (codes "Ca") ≡ codes "CA")
    × (state_code (codes "XX") ≡ [])
    × (state_code (codes "Jalisco") ≡ [])
unfolding state_code code_of fields one_spaced valid_codes contains lookup ◌=ᵇ◌
spellings = (refl, refl, refl, refl)

kept : clean_string (codes "Jalisco") ≡ codes "Jalisco"
unfolding clean_string state_code code_of fields one_spaced valid_codes contains lookup ◌=ᵇ◌
kept = refl

normalize-clean_example :
    let state = some (codes " new york") in
    (normalize (clean state) ≡ normalize state)
    × (clean (clean state) ≡ clean state)
    × (((normalize state ≡ none) × (clean state ≡ state))
        ⊎ ((c : Bytes) × (normalize state ≡ some c)
            × (clean state ≡ some c)
            × (is_valid_code c ≡ true)))
normalize-clean_example = normalize-clean (codes " new york")
