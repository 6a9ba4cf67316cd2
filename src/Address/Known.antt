-- ===== src/Address/Known.antt =====
-- What is read back of a state that address/state.go has written.
use backend_pkg.Common.{
  ◌≡◌, refl, sym, ap, ◌∙◌, ◌⊎◌, inl, inr, Bool, true, false, ◌&&◌, List, [], ◌∷◌, map, Bytes, ◌=ᵇ◌,
  =ᵇ_iff, =ᵇ→eq, ◌==◌, none, some, contains, length, lookup, get_or, to_lower, to_upper, Bool-cases,
  arith, trim_space, =ᵇ_refl,
}
use backend_pkg.Address.{
  state_name_to_code, valid_codes, fields, one_spaced, code_of, state_code, is_valid_code,
  normalize, clean,
}

-- A code is its own code.
unfoldable is_settled : Bytes → Bool
unfolding state_code is_valid_code ◌=ᵇ◌
is_settled c = state_code c =ᵇ c && is_valid_code c

unfoldable every : (Bytes → Bool) → List Bytes → Bool
every p [] = true
every p (c ∷ cs) = p c && every p cs

every_found :
    (p : Bytes → Bool) (cs : List Bytes) (c : Bytes)
    → every p cs ≡ true
    → contains cs c ≡ true
    → p c ≡ true
unfolding every contains
every_found p [] c h found = cc
every_found p (d ∷ cs) c h found = elim (Bool-cases (d =ᵇ c)) [
  | inl e ↦ ap p (sym (=ᵇ→eq d c e)) ∙ ground arith
  | inr e ↦ every_found p cs c (ground arith) (ground arith)
]

codes_settled : every is_settled valid_codes ≡ true
unfolding every is_settled state_code is_valid_code valid_codes fields code_of contains lookup
    one_spaced trim_space ◌=ᵇ◌
codes_settled = refl

settled :
    (c : Bytes) → contains valid_codes c ≡ true → (state_code c ≡ c) × (is_valid_code c ≡ true)
settled c h =
    let ok = every_found is_settled valid_codes c codes_settled h in
    let both : state_code c =ᵇ c && is_valid_code c ≡ true = unfold is_settled in ok in
    (=ᵇ→eq (state_code c) c (ground arith), ground arith)

lookup-contains :
    (k : Bytes) (m : List (Bytes × Bytes))
    → (get_or [] (lookup k m) ≡ []) ⊎ (contains (map (λ e. e.1) m) (get_or [] (lookup k m)) ≡ true)
unfolding lookup contains
lookup-contains k [] = inl refl
lookup-contains k ((j, v) ∷ m) = elim (Bool-cases (j =ᵇ k)) [
  | inl e ↦ rw e (inr (ground (arith, =ᵇ_refl v)))
  | inr e ↦
      rw e (elim (lookup-contains k m) [ inl blank ↦ inl blank | inr found ↦ inr (ground arith) ])
]

code_of-IsKnown : (s : Bytes) → (code_of s ≡ []) ⊎ (contains valid_codes (code_of s) ≡ true)
unfolding code_of
code_of-IsKnown s = elim (Bool-cases (s =ᵇ [])) [
  | inl blank ↦ rw blank (inl refl)
  | inr named ↦ elim (Bool-cases (length s == 2)) [
    | inl two ↦ elim (Bool-cases (contains valid_codes (to_upper s))) [
      | inl known ↦ rw (named, two, known) (inr known)
      | inr other ↦ rw (named, two, other) (inl refl)
    ]
    | inr more ↦
        rw (named, more) (unfold valid_codes in lookup-contains (to_lower s) state_name_to_code)
  ]
]

code_known :
    (c : Bytes)
    → (c ≡ []) ⊎ (contains valid_codes c ≡ true)
    → c =ᵇ [] ≡ false
    → contains valid_codes c ≡ true
code_known c (inl blank) named = absurd (ground (arith, =ᵇ_iff c []))
code_known c (inr known) named = known

state_code-IsKnown :
    (s : Bytes) → (state_code s ≡ []) ⊎ (contains valid_codes (state_code s) ≡ true)
state_code-IsKnown s = unfold state_code in code_of-IsKnown (one_spaced (fields s))

-- A state that cannot be mapped is kept when it is written and read as none; every other is written and
-- read as one recognised code. Writing it again changes nothing, and reading gives the same whether the
-- value was cleaned before or not.
pub normalize-clean :
    (state : Bytes)
    → (normalize (clean (some state)) ≡ normalize (some state))
      × (clean (clean (some state)) ≡ clean (some state))
      × (((normalize (some state) ≡ none) × (clean (some state) ≡ some state))
          ⊎ ((c : Bytes) × (normalize (some state) ≡ some c)
              × (clean (some state) ≡ some c)
              × (is_valid_code c ≡ true)))
unfolding normalize clean
normalize-clean state = elim (Bool-cases (state_code state =ᵇ [])) [
  | inl blank ↦ rw blank (rw blank refl, rw blank refl, inl (refl, refl))
  | inr named ↦
      let (same, valid) =
        settled (state_code state)
          (code_known (state_code state) (state_code-IsKnown state) named) in
      rw named (
        rw same (rw named refl),
        rw same (rw named refl),
        inr (state_code state, refl, refl, valid),
      )
]
