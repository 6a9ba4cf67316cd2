-- ===== src/Gate/Steps/RoundTrip.antt =====
-- Reading the steps that were written (rmsgate/steps.go).
use backend_pkg.Common.{
  ℕ, ◌≡◌, ◌≢◌, refl, ◌∙◌, false, List, [], ◌∷◌, ◌++◌, Bytes, ◌==◌, trim_space, trim_right,
  trim_right_step, trim_space_left, trim_right-append, first_not_space, none, some, All, =ᵇ-nil,
}
use backend_pkg.Gate.Steps.{colon, Step, format_step, cut_colon, parse_step, parse_steps}

abbrev NoColon : Bytes → Type 0
NoColon = All (λ c. (c == colon) ≡ false)

-- A step that the contract can carry: a kind that is not blank, holds no colon and has no white
-- space round it, and an argument with none at its end.
pub record IsWritable (s : Step) : Type 0 where
  pub kind_no_colon : NoColon s.kind
  pub kind_not_nil : s.kind ≢ []
  pub kind_trimmed : trim_space s.kind ≡ s.kind
  pub arg_trimmed : trim_right s.arg ≡ s.arg

cut_colon-none : (k : Bytes) → NoColon k → cut_colon k ≡ none
unfolding cut_colon
cut_colon-none [] h = refl
cut_colon-none (c ∷ k) (h, hs) = rw (h, cut_colon-none k hs)

cut_colon-some : (k a : Bytes) → NoColon k → cut_colon (k ++ (colon ∷ a)) ≡ some (k, a)
unfolding cut_colon
cut_colon-some [] a h = refl
cut_colon-some (c ∷ k) a (h, hs) = rw (h, cut_colon-some k a hs)

written_trimmed :
    (c : ℕ) (k : Bytes) (d : ℕ) (a : Bytes)
    → trim_space (c ∷ k) ≡ c ∷ k
    → trim_right (d ∷ a) ≡ d ∷ a
    → trim_space ((c ∷ k) ++ (colon ∷ (d ∷ a))) ≡ (c ∷ k) ++ (colon ∷ (d ∷ a))
written_trimmed c k d a h g =
    trim_space_left c (k ++ (colon ∷ (d ∷ a))) (first_not_space c k h)
    ∙ trim_right-append (c ∷ k) colon (d ∷ a) (rw (trim_right_step colon (d ∷ a), g) refl)

-- A step that can be written is read back as it was: the kind and the whole argument, colons in the
-- argument included.
parse_step-format_step : (s : Step) → IsWritable s → parse_step (format_step s.kind s.arg) ≡ s
unfolding parse_step format_step
parse_step-format_step s w =
    read s.kind s.arg w.kind_no_colon w.kind_not_nil w.kind_trimmed w.arg_trimmed
  where
    read :
        (k a : Bytes)
        → NoColon k
        → k ≢ []
        → trim_space k ≡ k
        → trim_right a ≡ a
        → parse_step (format_step k a) ≡ record { kind = k; arg = a }
    read [] a nc ne kt at = absurd (ne refl)
    read (c ∷ k) [] nc ne kt at = rw (kt, cut_colon-none (c ∷ k) nc) refl
    read (c ∷ k) (d ∷ a) nc ne kt at =
        rw (written_trimmed c k d a kt at, cut_colon-some (c ∷ k) (d ∷ a) nc, kt) refl

abbrev pub format_all : List Step → List Bytes
format_all [] = []
format_all (s ∷ ss) = format_step s.kind s.arg ∷ format_all ss

-- A list of steps that can be written is read back as it was: no step is dropped, and their order is
-- kept.
pub parse_steps-format : (ss : List Step) → All IsWritable ss → parse_steps (format_all ss) ≡ ss
unfolding parse_steps
parse_steps-format [] h = refl
parse_steps-format (s ∷ ss) (w, ws) =
    rw (parse_step-format_step s w, =ᵇ-nil s.kind w.kind_not_nil, parse_steps-format ss ws) refl
