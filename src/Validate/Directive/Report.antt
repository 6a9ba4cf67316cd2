-- ===== src/Validate/Directive/Report.antt =====
-- What the directive of validate/directive.go stores, and what the operation answers then.
use backend_pkg.Common.{
  ◌≡◌, ◌≢◌, refl, ap, ◌∙◌, Bool, true, false, List, [], ◌∷◌, ◌++◌, map, Bytes, if◌then◌else◌,
  Option, none, some, keep, arith, lookup, Option-cases, Bool-cases, inl, inr,
}
use mathlib.Core.List.{append-nil, append_assoc, map-append}
use backend_pkg.Validate.Errors.{
  ValidationErrors, add, with_validation_error, middleware, invalid, answered, FieldReply,
}
use backend_pkg.Validate.Rules.{GoLibrary, Rule, Arguments, Val, Obj, is_nil_value}
use backend_pkg.Validate.Violations.{name_of, cross_rules, value_rules, violates}
use backend_pkg.Validate.Directive.{
  value, message_for, FieldError, collect, Collector, store_errors, is_bad_pattern, directive,
}

module _ (lib : GoLibrary) (args : Arguments lib.Num) (roles_of : Bytes → Option (List Bytes))
    (default_of : Rule → Bytes) (obj : Obj lib) (v : Val lib) where
  -- The rules of a list that the value violates.
  abbrev pub violated : List Rule → List Rule
  violated = keep (violates lib args roles_of obj v)

  -- The rules that are tried: without a value only those on the presence of other fields.
  abbrev pub tried : List Rule
  tried = if is_nil_value lib v then cross_rules else cross_rules ++ value_rules

  abbrev with_rules :
      FieldError lib args roles_of default_of → List Rule → FieldError lib args roles_of default_of
  with_rules e rs = record e {
    rules = e.rules ++ map name_of rs;
    messages = e.messages ++ map (message_for lib args roles_of default_of) rs;
  }

  collect_lem :
      (rs : List Rule) (e : FieldError lib args roles_of default_of)
      → collect lib args roles_of default_of obj v rs e ≡ with_rules e (violated rs)
  unfolding collect
  collect_lem [] e = simp append-nil
  collect_lem (r ∷ rs) e = elim (Bool-cases (violates lib args roles_of obj v r)) [
    | inl b ↦ let e' = with_rules e (r ∷ []) in rw b (collect_lem rs e' ∙ simp append_assoc)
    | inr b ↦ rw b (collect_lem rs e)
  ]

  keep-append : (p : Rule → Bool) (rs ss : List Rule) → keep p (rs ++ ss) ≡ keep p rs ++ keep p ss
  keep-append p [] ss = refl
  keep-append p (r ∷ rs) ss = elim (Bool-cases (p r)) [
    | inl b ↦ rw b (ap (λ x. r ∷ x) (keep-append p rs ss))
    | inr b ↦ rw b (keep-append p rs ss)
  ]

  -- The error of a field with the rules that it violates, each with its message.
  abbrev pub error_of : Bytes → List Rule → FieldError lib args roles_of default_of
  error_of field rs = record {
    field = field;
    value = v;
    rules = map name_of rs;
    messages = map (message_for lib args roles_of default_of) rs;
  }

  -- Nothing is stored if nothing is violated, or if the context holds no collector.
  abbrev pub stored :
      Bytes
      → List Rule
      → Collector lib args roles_of default_of
      → Collector lib args roles_of default_of
  stored field [] ctx = ctx
  stored field (r ∷ rs) none = none
  stored field (r ∷ rs) (some ve) = some (add ve (error_of field (r ∷ rs)))

  store_errors-stored :
      (field : Bytes) (rs : List Rule) (ctx : Collector lib args roles_of default_of)
      → store_errors lib args roles_of default_of ctx (error_of field rs) ≡ stored field rs ctx
  unfolding store_errors with_validation_error
  store_errors-stored field [] ctx = refl
  store_errors-stored field (r ∷ rs) none = ground arith
  store_errors-stored field (r ∷ rs) (some ve) = ground arith

  collected_cross :
      (field : Bytes)
      → collect lib args roles_of default_of obj v cross_rules (error_of field [])
        ≡ error_of field (violated cross_rules)
  collected_cross field = collect_lem cross_rules (error_of field [])

  collected_value :
      (field : Bytes)
      → collect lib args roles_of default_of obj v value_rules
          (error_of field (violated cross_rules))
        ≡ error_of field (violated (cross_rules ++ value_rules))
  collected_value field =
      collect_lem value_rules (error_of field (violated cross_rules))
      ∙ simp (keep-append (violates lib args roles_of obj v) cross_rules value_rules, map-append)

  module _ {R : Type 0} (returned : R) (field : Bytes)
      (ctx : Collector lib args roles_of default_of) where
    -- Unless the pattern does not compile, the value is returned as it is, and the collector of the
    -- operation has one more error exactly if a rule that is tried is violated: it names all of these,
    -- in the order of the source, each with its message.
    directive_lem :
        is_bad_pattern lib args roles_of default_of v ≡ false
        → directive lib args roles_of default_of ctx field obj (some (returned, v))
          ≡ (stored field (violated tried) ctx, value returned)
    unfolding directive
    directive_lem fine =
        let all = error_of field (violated (cross_rules ++ value_rules)) in
        elim (Bool-cases (is_nil_value lib v)) [
          | inl n ↦
              rw (n, collected_cross field, store_errors-stored field (violated cross_rules) ctx)
                refl
          | inr n ↦
              rw
                (
                  n,
                  fine,
                  collected_cross field,
                  collected_value field,
                  store_errors-stored field (violated (cross_rules ++ value_rules)) ctx,
                )
                refl
        ]

  module _ {R : Type 0} (returned : R) (field : Bytes) where
    add-has_errs :
        (ve : ValidationErrors (Val lib)) (e : FieldError lib args roles_of default_of)
        → (add ve e).has_errs ≡ true
    unfolding add
    add-has_errs ve e = elim (Option-cases (lookup e.field ve.error_map)) [
      | inl k ↦ rw k refl
      | inr (i, k) ↦ rw k refl
    ]

    -- What the operation answers with its collector after the directive.
    abbrev pub reply_to : {A : Type 0} → ValidationErrors (Val lib) → A → FieldReply (Val lib) A
    reply_to ve a =
        middleware true
          (directive lib args roles_of default_of (some ve) field obj (some (returned, v))).0 a

    middleware-stored :
        {A : Type 0} (a : A) (ve : ValidationErrors (Val lib)) (rs : List Rule)
        → ve.has_errs ≡ false
        → middleware true (stored field rs (some ve)) a ≡ elim rs [
          | [] ↦ answered a
          | r ∷ rest ↦ invalid (add ve (error_of field (r ∷ rest))).errors
        ]
    unfolding middleware
    middleware-stored a ve [] clean = rw clean refl
    middleware-stored a ve (r ∷ rs) clean = rw (add-has_errs ve (error_of field (r ∷ rs))) refl

    reply_cases :
        {A : Type 0} (a : A) (ve : ValidationErrors (Val lib)) (rs : List Rule)
        (m : FieldReply (Val lib) A)
        → m ≡ elim rs [
          | [] ↦ answered a
          | r ∷ rest ↦ invalid (add ve (error_of field (r ∷ rest))).errors
        ]
        → (rs ≡ [] → m ≡ answered a) × (rs ≢ [] → m ≡ invalid (add ve (error_of field rs)).errors)
    reply_cases a ve [] m e = (λ h. e, λ h. absurd (h refl))
    reply_cases a ve (r ∷ rs) m e = (λ h. absurd (cc), λ h. e)

    -- In an operation whose collector is empty so far, a resolver's answer is given if no rule that is
    -- tried is violated, and else replaced by the error of the field.
    pub directive_reply :
        {A : Type 0} (a : A) (ve : ValidationErrors (Val lib))
        → is_bad_pattern lib args roles_of default_of v ≡ false
        → ve.has_errs ≡ false
        → (violated tried ≡ [] → reply_to ve a ≡ answered a)
          × (violated tried ≢ []
              → reply_to ve a ≡ invalid (add ve (error_of field (violated tried))).errors)
    directive_reply a ve fine clean = reply_cases a ve (violated tried) _ (
        ap (λ p. middleware true p.0 a) (directive_lem returned field (some ve) fine)
        ∙ middleware-stored a ve (violated tried) clean)
