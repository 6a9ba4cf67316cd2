-- ===== src/Auth/Revocation/Pipeline.antt =====
-- The middleware of auth/middleware.go in front of the guards of middleware/auth_middleware.go.
use backend_pkg.Common.{
  ℕ, ◌+◌, ◌*◌, ◌<◌, ◌≡◌, ◌≢◌, ◌∙◌, Bool, true, false, List, Bytes, Option, some, arith, ap, sym,
  ◌/◌,
}
use backend_pkg.Auth.Actor.{Actor, UserClaims, Context, present, get_actor}
use backend_pkg.Auth.Routes.{forbidden, require_perms, require_perms_denial}
use backend_pkg.Auth.Revocation.{
  CutoffStore, Gate, goes_on, refuses, Resolved, unresolved, identify_user_perms, stash, revocation,
  has_any_prefix, second, revocation_clock_skew, revoke_user_tokens, user_token_revoked, is_answer,
  token_revoked, issued_early, tokens_valid_after_ttl,
}

-- A user or a service's user: neither a guest nor the system.
abbrev IsUser : Context → Actor → Type 0
IsUser ctx a = (ctx.actor ≡ present a) × (a.is_guest ≡ false) × (a.is_system ≡ false)

-- Whether the request goes on with its permissions unresolved; a refused one does not go on.
abbrev marked : Gate → Bool
marked refuses = true
marked (goes_on ctx) = ctx.perms_unresolved

identified_marks :
    (ctx : Context) (a : Actor) (path : Bytes) (exempt : List Bytes)
    (lookup : ℕ → Bool × Option Bytes) (err : Bytes)
    → IsUser ctx a
    → marked (identify_user_perms ctx path exempt lookup (unresolved err)) ≡ true
unfolding identify_user_perms get_actor stash
identified_marks ctx a path exempt lookup err (h, guest, system) = ground arith

unresolved_marks :
    (ctx ctx' : Context) (a : Actor) (path : Bytes) (exempt : List Bytes)
    (lookup : ℕ → Bool × Option Bytes) (err : Bytes)
    → IsUser ctx a
    → identify_user_perms ctx path exempt lookup (unresolved err) ≡ goes_on ctx'
    → ctx'.perms_unresolved ≡ true
unresolved_marks ctx ctx' a path exempt lookup err u e =
    ap marked (sym e) ∙ identified_marks ctx a path exempt lookup err u

-- When the permissions of a user cannot be resolved, no guard of a permission behind the middleware
-- answers that one is missing.
unresolved_not_denied :
    (ctx ctx' : Context) (a : Actor) (path : Bytes) (exempt : List Bytes)
    (lookup : ℕ → Bool × Option Bytes) (err : Bytes) (perms : List Bytes)
    → IsUser ctx a
    → identify_user_perms ctx path exempt lookup (unresolved err) ≡ goes_on ctx'
    → require_perms perms ctx' ≢ forbidden
unresolved_not_denied ctx ctx' a path exempt lookup err perms u e d =
    let m = unresolved_marks ctx ctx' a path exempt lookup err u e in
    let (n, _) = require_perms_denial perms ctx' d in cc

-- Behind a revocation that reported no error, for the eight days that its cutoff lives and where the store
-- answers the middleware's read, a request of the user is refused on every route that is not exempt,
-- whatever the permissions, if its token was issued more than six seconds before.
pub revoked_refused :
    (c : CutoffStore) (s : c.Store) (ctx : Context) (a : Actor) (claims : UserClaims)
    (t now later : ℕ) (path : Bytes) (exempt : List Bytes) (perms : Resolved)
    → IsUser ctx a
    → a.claims ≡ some claims
    → claims.issued_at ≡ some t
    → has_any_prefix path exempt ≡ false
    → t * second + revocation_clock_skew + second < now
    → (revoke_user_tokens c s a.id now).1 ≡ true
    → later < now + tokens_valid_after_ttl
    → is_answer (c.get_global (revoke_user_tokens c s a.id now).0 later a.id) ≡ true
    → identify_user_perms ctx path exempt
        (user_token_revoked c (revoke_user_tokens c s a.id now).0 a.id later)
        perms
      ≡ refuses
unfolding identify_user_perms get_actor user_token_revoked revoke_user_tokens token_revoked
    revocation
revoked_refused c s ctx a claims t now later path exempt perms (h, guest, system) hc ht ex late ok
      lives answers =
    ground (
      arith,
      ap (λ r. (token_revoked r (t * second)).0)
          (c.get-set s now later a.id (now / second) tokens_valid_after_ttl ok lives answers),
      issued_early (t * second) now late,
    )
