-- ===== src/Gate/Register.antt =====
-- rmsgate/contract.go: the registration of contracts over HTTP, at most three attempts with a growing
-- pause. What each attempt meets, and whether the context is cancelled in the pause behind it, come
-- from outside.
use backend_pkg.Common.{
  ℕ, zero, suc, ◌+◌, ◌-◌, ◌*◌, ◌≤◌, ◌<◌, ◌≡◌, refl, Bool, true, false, Bytes, ltb, if◌then◌else◌,
  Option, none, some, arith, ◌∙◌,
}

pub data Attempt : Type 0 where
  bad_request : Bytes → Attempt
  no_response : Bytes → Attempt
  response : ℕ → Attempt

pub data RegisterError : Type 0 where
  marshal_failed : RegisterError
  request_failed : Bytes → RegisterError
  send_failed : Bytes → RegisterError
  refused : ℕ → RegisterError
  context_done : RegisterError

abbrev attempts : ℕ
attempts = 3

-- The milliseconds of the pause behind attempt `i`.
pause : ℕ → ℕ
pause i = i * 500

-- An attempt ends the call, with or without an error, or leaves an error and is tried again.
pub data Verdict : Type 0 where
  ends : Option RegisterError → Verdict
  retries : RegisterError → Verdict

unfoldable judge : Attempt → Verdict
judge (bad_request e) = ends (some (request_failed e))
judge (no_response e) = retries (send_failed e)
judge (response status) =
    if ltb status 300
    then ends none
    else if ltb status 500
    then ends (some (refused status))
    else retries (refused status)

-- The loop from attempt `i` on. The result is the number of attempts made, and the error.
register_from : (ℕ → Attempt) → (ℕ → Bool) → ℕ → ℕ → Option RegisterError → ℕ × Option RegisterError
register_from world cancelled i zero last = (i - 1, last)
register_from world cancelled i (suc rounds) last = elim (judge (world i)) [
  | ends r ↦ (i, r)
  | retries e ↦ elim (cancelled i) [
    | true ↦ (i, some context_done)
    | false ↦ register_from world cancelled (i + 1) rounds (some e)
  ]
]

-- `marshalled` says whether the payload could be written as JSON.
register_json : Bool → (ℕ → Attempt) → (ℕ → Bool) → ℕ × Option RegisterError
unfolding register_from
register_json marshalled world cancelled =
    if marshalled then register_from world cancelled 1 attempts none else (0, some marshal_failed)

register_from_ends :
    (world : ℕ → Attempt) (cancelled : ℕ → Bool) (i rounds : ℕ) (last o : Option RegisterError)
    → judge (world i) ≡ ends o
    → register_from world cancelled i (suc rounds) last ≡ (i, o)
unfolding register_from
register_from_ends world cancelled i rounds last o h = ground arith

register_from_retries :
    (world : ℕ → Attempt) (cancelled : ℕ → Bool) (i rounds : ℕ) (last : Option RegisterError)
    (e : RegisterError)
    → judge (world i) ≡ retries e
    → cancelled i ≡ false
    → register_from world cancelled i (suc rounds) last
      ≡ register_from world cancelled (i + 1) rounds (some e)
unfolding register_from
register_from_retries world cancelled i rounds last e h k = ground arith

-- Attempt `i` fails in a way that is tried again, and the pause behind it is not cancelled.
abbrev IsRetried : (ℕ → Attempt) → (ℕ → Bool) → ℕ → RegisterError → Type 0
IsRetried world cancelled i e = (judge (world i) ≡ retries e) × (cancelled i ≡ false)

-- Each attempt before attempt `k` is tried again.
abbrev RetriedBefore : (ℕ → Attempt) → (ℕ → Bool) → ℕ → Type 0
RetriedBefore world cancelled k =
    (i : ℕ) → 1 ≤ i → i < k → (e : RegisterError) × IsRetried world cancelled i e

module _ (world : ℕ → Attempt) (cancelled : ℕ → Bool) where
  -- After the attempts before `k` the loop goes on with attempt `k`.
  reach :
      (k : ℕ)
      → k < attempts
      → RetriedBefore world cancelled (k + 1)
      → (last : Option RegisterError) × (register_json true world cancelled
          ≡ register_from world cancelled (k + 1) (attempts - k) last)
  unfolding register_json
  reach zero h r = (none, refl)
  reach (suc zero) h r =
      let (e, (f, w)) = r 1 (omega arith) (omega arith) in
      (some e, register_from_retries world cancelled 1 2 none e f w)
  reach (suc (suc zero)) h r =
      let (e, (f, w)) = r 1 (omega arith) (omega arith) in
      let (e', (f', w')) = r 2 (omega arith) (omega arith) in
      (
        some e',
        register_from_retries world cancelled 1 2 none e f w
            ∙ register_from_retries world cancelled 2 1 (some e) e' f' w',
      )
  reach (suc (suc (suc k))) h r = absurd (omega arith)

-- The first attempt that is not tried again decides the call, with its error or none, and no request
-- is sent behind it. Such an attempt is among the first three.
register_json_ends :
    (world : ℕ → Attempt) (cancelled : ℕ → Bool) (k : ℕ) (o : Option RegisterError)
    → k < attempts
    → RetriedBefore world cancelled (k + 1)
    → judge (world (k + 1)) ≡ ends o
    → register_json true world cancelled ≡ (k + 1, o)
register_json_ends world cancelled k o h r e =
    let (last, eq) = reach world cancelled k h r in
    eq
    ∙ rw (rounds_left k h) (register_from_ends world cancelled (k + 1) (attempts - k - 1) last o e)
  where
    rounds_left : (k : ℕ) → k < attempts → attempts - k ≡ suc (attempts - k - 1)
    rounds_left k h = omega arith

-- If every attempt is tried again, exactly three requests are sent, and the call returns the error of
-- the last of them.
register_json_exhausted :
    (world : ℕ → Attempt) (cancelled : ℕ → Bool) (e : RegisterError)
    → RetriedBefore world cancelled attempts
    → IsRetried world cancelled attempts e
    → register_json true world cancelled ≡ (attempts, some e)
register_json_exhausted world cancelled e r (f, w) =
    let (last, eq) = reach world cancelled 2 (omega arith) r in
    eq ∙ register_from_retries world cancelled 3 0 last e f w ∙ unfold register_from in refl
