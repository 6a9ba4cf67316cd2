-- ===== src/Gate/Client/Circuit.antt =====
-- The verdicts and the circuit of `decide` (rmsgate/client.go).
use backend_pkg.Common.{
  ℕ, ◌+◌, ◌≤◌, ◌<◌, ◌≡◌, refl, ap, ◌∙◌, ◌⊎◌, inl, inr, true, false, List, [], ◌∷◌, Bytes, length,
  All, arith,
}
use backend_pkg.Gate.Steps.{parse_steps}
use backend_pkg.Gate.Registry.{mode}
use backend_pkg.Gate.Client.{
  Client, Outcome, answered, failed, EvaluateResponse, evaluate, opens, fail_decision, deadline,
  settle, circuit_open, decide, circuit_threshold, circuit_cooldown,
}

-- A verdict that is not the gate's allows exactly if the process fails open, and requires no step.
decide_degraded :
    (c : Client) (process : Bytes) (now : ℕ) (gate : ℕ → Outcome) (later : ℕ)
    → (decide c process now gate later).1.failed_open ≡ true
    → ((decide c process now gate later).1.allow ≡ opens (mode c.opt.reg process))
      × ((decide c process now gate later).1.required_steps ≡ [])
unfolding decide settle evaluate fail_decision
decide_degraded c process now gate later h = ground arith

Outcome-cases :
    (o : Outcome)
    → ((resp : EvaluateResponse) × (o ≡ answered resp)) ⊎ ((err : Bytes) × (o ≡ failed err))
Outcome-cases (answered resp) = inl (resp, refl)
Outcome-cases (failed err) = inr (err, refl)

-- Any other verdict is the gate's own answer to a call that was made, with the deadline of the
-- process, while the circuit was closed.
pub decide_answered :
    (c : Client) (process : Bytes) (now : ℕ) (gate : ℕ → Outcome) (later : ℕ)
    → (decide c process now gate later).1.failed_open ≡ false
    → (circuit_open c now ≡ false)
      × ((resp : EvaluateResponse) × (gate (deadline c process) ≡ answered resp)
          × ((decide c process now gate later).1.allow ≡ resp.allow)
          × ((decide c process now gate later).1.reasons ≡ resp.reasons)
          × ((decide c process now gate later).1.required_steps ≡ parse_steps resp.required_steps))
unfolding decide settle evaluate fail_decision
decide_answered c process now gate later h = elim (Outcome-cases (gate (deadline c process))) [
  | inl (resp, e) ↦ (ground arith, (resp, e, ground arith, ground arith, ground arith))
  | inr (err, e) ↦ ground arith
]

-- While the circuit is open the gate is not asked: the verdict and the client are the same whatever
-- it would answer, and the client stays as it is.
decide_open :
    (c : Client) (process : Bytes) (now : ℕ) (gate gate' : ℕ → Outcome) (later : ℕ)
    → now < c.open_until
    → (decide c process now gate later ≡ decide c process now gate' later)
      × ((decide c process now gate later).0 ≡ c)
unfolding decide circuit_open
decide_open c process now gate gate' later h = ground arith

-- A call that fails on the wire, with the clock before and after it.
pub record FailedCall : Type 0 where
  pub process : Bytes
  pub now : ℕ
  pub err : Bytes
  pub later : ℕ

abbrev pub fail_once : Client → FailedCall → Client
fail_once c e = (decide c e.process e.now (λ _. failed e.err) e.later).0

abbrev pub fail_all : Client → List FailedCall → Client
fail_all c [] = c
fail_all c (e ∷ es) = fail_all (fail_once c e) es

fail_once_lem :
    (c : Client) (e : FailedCall)
    → c.open_until ≤ e.now
    → c.failures + 1 < circuit_threshold
    → fail_once c e ≡ record c { failures = c.failures + 1 }
unfolding decide circuit_open settle evaluate
fail_once_lem c e h k = ground arith

fail_once_last :
    (c : Client) (e : FailedCall)
    → c.open_until ≤ e.now
    → c.failures + 1 ≡ circuit_threshold
    → fail_once c e ≡ record c { failures = 0; open_until = e.later + circuit_cooldown }
unfolding decide circuit_open settle evaluate
fail_once_last c e h k = ground arith

-- While the circuit is closed and the threshold is not reached, failed calls are only counted.
fail_all_lem :
    (c : Client) (es : List FailedCall)
    → All (λ e. c.open_until ≤ e.now) es
    → c.failures + length es < circuit_threshold
    → fail_all c es ≡ record c { failures = c.failures + length es }
fail_all_lem c [] h k = ground arith
fail_all_lem c (e ∷ es) (h, hs) k =
    let d : Client = record c { failures = c.failures + 1 } in
    rw (fail_once_lem c e h (omega arith))
      (fail_all_lem d es hs (omega arith) ∙ ap (λ n. record c { failures = n }) (omega arith))

-- Failed calls in a row, each made while the circuit is closed, of which the last makes the count five,
-- also if the circuit was open before: the last opens it for the cooldown after it, and the count begins
-- anew.
pub circuit_trips :
    (c : Client) (es : List FailedCall) (e : FailedCall)
    → All (λ x. c.open_until ≤ x.now) es
    → c.open_until ≤ e.now
    → c.failures + length es + 1 ≡ circuit_threshold
    → fail_once (fail_all c es) e
      ≡ record c { failures = 0; open_until = e.later + circuit_cooldown }
circuit_trips c es e hs h k =
    rw (fail_all_lem c es hs (omega arith))
      (fail_once_last (record c { failures = c.failures + length es }) e h k)
