-- ===== src/Gate/Steps.antt =====
-- rmsgate/steps.go: the steps that a decision requires, written as `kind` or `kind:arg`.
pub mod RoundTrip
use backend_pkg.Common.{
  ℕ, Bool, true, false, List, [], ◌∷◌, ◌++◌, Bytes, codes, ◌==◌, if◌then◌else◌, trim_space, Option,
  none, some, ◌=ᵇ◌,
}

abbrev pub colon : ℕ
colon = b':'

abbrev manual_approval : Bytes
manual_approval = codes "manual_approval"

abbrev override_marker : Bytes
override_marker = codes "override"

abbrev post_message : Bytes
post_message = codes "post_message"

abbrev pub notify : Bytes
notify = codes "notify"

pub record Step : Type 0 where
  pub kind : Bytes
  pub arg : Bytes

pub format_step : Bytes → Bytes → Bytes
format_step kind [] = kind
format_step kind (c ∷ arg) = kind ++ (colon ∷ (c ∷ arg))

-- What stands before and behind the first colon, if there is one.
abbrev pub after : ℕ → Option (Bytes × Bytes) → Option (Bytes × Bytes)
after c none = none
after c (some (k, a)) = some (c ∷ k, a)

pub cut_colon : Bytes → Option (Bytes × Bytes)
cut_colon [] = none
cut_colon (c ∷ s) = if c == colon then some ([], s) else after c (cut_colon s)

abbrev of_cut : Bytes → Option (Bytes × Bytes) → Step
of_cut s none = record { kind = s; arg = [] }
of_cut s (some (k, a)) = record { kind = trim_space k; arg = a }

pub parse_step : Bytes → Step
unfolding cut_colon
parse_step s = let t = trim_space s in of_cut t (cut_colon t)

pub parse_steps : List Bytes → List Step
parse_steps [] = []
parse_steps (s ∷ ss) =
    let step = parse_step s in if step.kind =ᵇ [] then parse_steps ss else step ∷ parse_steps ss
