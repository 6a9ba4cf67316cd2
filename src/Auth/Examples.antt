-- ===== src/Auth/Examples.antt =====
-- The theorems on actors, guards, revocation and the cache of permissions at concrete inputs.
mod Traffic
use backend_pkg.Common.{
  ℕ, ◌+◌, ◌*◌, ◌≡◌, ◌≢◌, refl, true, false, [], ◌∷◌, Bytes, codes, contains, Option, none, some,
  Any, ◌==◌, ltb, lt→ltb, if◌then◌else◌, arith, ◌=ᵇ◌, has_prefix, ==_refl,
}
use backend_pkg.Perms.{has_permission, split, join}
use backend_pkg.Perms.Grants.{Grants}
use backend_pkg.Auth.Actor.{Actor, Context, present, is_super_admin, get_actor, UserClaims}
use backend_pkg.Auth.Routes.{require_perms, get_user_perms, require_perms_sound}
use backend_pkg.Auth.Revocation.{
  CutoffStore, Read, found, missing, revoke_user_tokens, user_token_revoked, identify_user_perms,
  has_any_prefix, resolved, refuses, second,
}
use backend_pkg.Auth.Revocation.Pipeline.{revoked_refused}

abbrev dispatcher : Actor
dispatcher = record { id = 3; claims = none; is_system = false; is_guest = false }

abbrev request : Context
request = record {
  actor = present dispatcher;
  user_perms = some (codes "fleet" ∷ []);
  perms_unresolved = false;
}

require_perms_sound_example :
    (request.perms_unresolved ≡ false)
    × Any
        (λ r. (r ≢ []) × ((p : Bytes) × (contains (get_user_perms request) p ≡ true) × Grants p r))
        (codes "fleet.trucks" ∷ [])
unfolding require_perms get_actor is_super_admin has_permission contains split join get_user_perms
require_perms_sound_example =
    require_perms_sound (codes "fleet.trucks" ∷ []) request dispatcher refl refl refl refl

-- A store that keeps the cutoffs of all users, each with its end, as a function.
abbrev Cutoffs : Type 0
Cutoffs = ℕ → Option (ℕ × ℕ)

abbrev set_at : Cutoffs → ℕ → ℕ → ℕ → Cutoffs
set_at s u v end w = if u == w then some (v, end) else s w

abbrev read_live : ℕ → Option (ℕ × ℕ) → Read
read_live now none = missing
read_live now (some (v, end)) = if ltb now end then found v else missing

abbrev store : CutoffStore
store = record {
  Store = Cutoffs;
  set_global = λ s now u v ttl. (set_at s u v (now + ttl), true);
  get_global = λ s now u. read_live now (s u);
  get-set =
      λ s now later u v ttl ok lives answers. rw (==_refl u, lt→ltb later (now + ttl) lives) refl;
  get-set_ne = λ s now later u w v ttl ne. ground arith;
}

abbrev blank_store : Cutoffs
blank_store u = none

abbrev old_claims : UserClaims
old_claims = record {
  user_id = 3;
  company_id = none;
  roles = [];
  resource = [];
  issued_at = some 90;
}

abbrev old_dispatcher : Actor
old_dispatcher = record dispatcher { claims = some old_claims }

revoked_refused_example :
    identify_user_perms
      (record request { actor = present old_dispatcher })
      (codes "/query")
      (codes "/auth" ∷ [])
      (user_token_revoked store
        (revoke_user_tokens store blank_store 3 (100 * second)).0
        3
        (101 * second))
      (resolved (codes "fleet" ∷ []))
    ≡ refuses
unfolding has_any_prefix ◌=ᵇ◌ has_prefix revoke_user_tokens
revoked_refused_example =
    revoked_refused store blank_store (record request { actor = present old_dispatcher })
      old_dispatcher old_claims 90 (100 * second) (101 * second) (codes "/query")
      (codes "/auth" ∷ []) (resolved (codes "fleet" ∷ [])) (refl, refl, refl) refl refl refl
      (omega arith) refl (omega arith) refl
