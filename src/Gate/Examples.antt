-- ===== src/Gate/Examples.antt =====
-- The theorems on the gate's client at concrete inputs.
use backend_pkg.Common.{
  arith, ℕ, ◌+◌, ◌≡◌, refl, true, false, List, [], ◌∷◌, codes, some, trim_space, trim_right,
}
use backend_pkg.Gate.Steps.{Step, parse_steps, notify}
use backend_pkg.Gate.Steps.RoundTrip.{IsWritable, format_all, parse_steps-format}
use backend_pkg.Gate.Registry.{ProcessDef, fail_open, fail_closed, new_registry}
use backend_pkg.Gate.Client.{
  Client, EvaluateResponse, answered, Outcome, decide, deadline, circuit_open, circuit_cooldown,
  settle, evaluate, fail_decision,
}
use backend_pkg.Gate.Client.Circuit.{
  decide_answered, FailedCall, fail_all, fail_once, circuit_trips,
}

abbrev approval : Step
approval = record { kind = notify; arg = codes "ops:lead" }

approval-IsWritable : IsWritable approval
unfolding trim_space trim_right
approval-IsWritable = record {
  kind_no_colon = (refl, (refl, (refl, (refl, (refl, (refl, tt))))));
  kind_not_nil = λ e. cc;
  kind_trimmed = refl;
  arg_trimmed = refl;
}

parse_steps-format_example :
    parse_steps (format_all (approval ∷ (approval ∷ []))) ≡ approval ∷ (approval ∷ [])
parse_steps-format_example =
    parse_steps-format (approval ∷ (approval ∷ [])) (approval-IsWritable, (approval-IsWritable, tt))

abbrev defs : List ProcessDef
defs =
    record { process = codes "dispatch"; mode = fail_closed; timeout = 0 }
    ∷ (record { process = codes "dispatch"; mode = fail_open; timeout = 7 } ∷ [])

abbrev idle : Client
idle = record {
  opt = record { timeout = 100; reg = some (new_registry defs) };
  failures = 0;
  open_until = 0;
}

abbrev up : ℕ → Outcome
up d = answered (record { allow = true; reasons = []; required_steps = codes "notify:ops" ∷ [] })

decide_answered_example :
    (circuit_open idle 10 ≡ false)
    × ((resp : EvaluateResponse) × (up (deadline idle (codes "dispatch")) ≡ answered resp)
        × ((decide idle (codes "dispatch") 10 up 11).1.allow ≡ resp.allow)
        × ((decide idle (codes "dispatch") 10 up 11).1.reasons ≡ resp.reasons)
        × ((decide idle (codes "dispatch") 10 up 11).1.required_steps
            ≡ parse_steps resp.required_steps))
unfolding decide circuit_open settle evaluate fail_decision
decide_answered_example = decide_answered idle (codes "dispatch") 10 up 11 refl

abbrev lost : FailedCall
lost = record { process = codes "dispatch"; now = 10; err = codes "refused"; later = 11 }

-- The circuit was open until 9.
circuit_trips_example :
    fail_once
      (fail_all (record idle { open_until = 9 }) (lost ∷ (lost ∷ (lost ∷ (lost ∷ [])))))
      lost
    ≡ record idle { failures = 0; open_until = 11 + circuit_cooldown }
circuit_trips_example =
    circuit_trips (record idle { open_until = 9 }) (lost ∷ (lost ∷ (lost ∷ (lost ∷ [])))) lost
      (omega arith, (omega arith, (omega arith, (omega arith, tt)))) (omega arith) refl
