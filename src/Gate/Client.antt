-- ===== src/Gate/Client.antt =====
-- rmsgate/client.go: `Decide` with its circuit. A client is its two counters; the clock and what the
-- gate answers come from outside. One call runs at a time.
pub mod Circuit
use backend_pkg.Common.{
  ℕ, ◌+◌, ◌≡◌, refl, Bool, true, false, ◌&&◌, List, [], ◌∷◌, ◌++◌, Bytes, codes, ltb, leb,
  if◌then◌else◌, Option, none, some, ◌==◌,
}
use backend_pkg.Gate.Steps.{Step, parse_steps}
use backend_pkg.Gate.Registry.{
  FailMode, fail_closed, fail_open, mode_string, Registry, mode, timeout,
}

pub record Decision : Type 0 where
  pub allow : Bool
  pub reasons : List Bytes
  pub required_steps : List Step
  pub failed_open : Bool

abbrev default_timeout : ℕ
default_timeout = 150000000

abbrev pub circuit_threshold : ℕ
circuit_threshold = 5

abbrev pub circuit_cooldown : ℕ
circuit_cooldown = 2000000000

pub record Options : Type 0 where
  pub timeout : ℕ
  pub reg : Option Registry

data Setting : Type 0 where
  with_timeout : ℕ → Setting
  with_fail_modes : Registry → Setting

apply_setting : Options → Setting → Options
apply_setting o (with_timeout d) = record o { timeout = d }
apply_setting o (with_fail_modes r) = record o { reg = some r }

apply_settings : Options → List Setting → Options
unfolding apply_setting
apply_settings o [] = o
apply_settings o (s ∷ ss) = apply_settings (apply_setting o s) ss

-- `open_until` is a time in nanoseconds, and 0 before the circuit was ever opened.
pub record Client : Type 0 where
  pub opt : Options
  pub failures : ℕ
  pub open_until : ℕ

new_from_conn : List Setting → Client
unfolding apply_settings
new_from_conn settings = record {
  opt = apply_settings (record { timeout = default_timeout; reg = none }) settings;
  failures = 0;
  open_until = 0;
}

-- What the gate answers over the wire, and what became of a call.
pub record EvaluateResponse : Type 0 where
  pub allow : Bool
  pub reasons : List Bytes
  pub required_steps : List Bytes

pub data Outcome : Type 0 where
  answered : EvaluateResponse → Outcome
  failed : Bytes → Outcome

pub data Evaluated : Type 0 where
  decided : Decision → Evaluated
  transport_error : Bytes → Evaluated

unfoldable pub evaluate : Outcome → Evaluated
evaluate (answered resp) = decided (record {
  allow = resp.allow;
  reasons = resp.reasons;
  required_steps = parse_steps resp.required_steps;
  failed_open = false;
})
evaluate (failed err) = transport_error err

abbrev pub opens : FailMode → Bool
opens fail_open = true
opens fail_closed = false

unfoldable pub fail_decision : Client → Bytes → Bytes → Decision
fail_decision c process reason =
    let m = mode c.opt.reg process in
    record {
      allow = opens m;
      reasons =
          (codes "rmsgate: " ++ (reason ++ (codes " (" ++ (mode_string m ++ codes ")")))) ∷ [];
      required_steps = [];
      failed_open = true;
    }

-- The deadline of a call.
pub deadline : Client → Bytes → ℕ
deadline c process = let t = timeout c.opt.reg process in if t == 0 then c.opt.timeout else t

-- What follows a call that was made; `later` is the clock when the call has ended.
unfoldable pub settle : Client → Bytes → ℕ → Evaluated → Client × Decision
settle c process later (decided dec) = (record c { failures = 0 }, dec)
settle c process later (transport_error err) =
    let n = c.failures + 1 in
    (
      if leb circuit_threshold n
          then record c { failures = 0; open_until = later + circuit_cooldown }
          else record c { failures = n },
      fail_decision c process (codes "gate unavailable: " ++ err),
    )

unfoldable pub circuit_open : Client → ℕ → Bool
circuit_open c now = ltb 0 c.open_until && ltb now c.open_until

-- The call `gate` is given its deadline.
unfoldable pub decide : Client → Bytes → ℕ → (ℕ → Outcome) → ℕ → Client × Decision
decide c process now gate later =
    if circuit_open c now
    then (c, fail_decision c process (codes "gate circuit open"))
    else settle c process later (evaluate (gate (deadline c process)))
