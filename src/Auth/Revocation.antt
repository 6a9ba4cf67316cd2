-- ===== src/Auth/Revocation.antt =====
-- auth/token_revocation.go and auth/middleware.go: the cutoff behind which an access token is refused.
-- Times are nanoseconds; the cutoff is stored in seconds. The store is a parameter.
pub mod Pipeline
use backend_pkg.Common.{
  ℕ, ◌+◌, ◌*◌, ◌/◌, ◌≤◌, ◌<◌, ◌≡◌, refl, Bool, true, false, ◌&&◌, ◌||◌, not, List, [], ◌∷◌, Bytes,
  ◌=ᵇ◌, ltb, lt→ltb, ltb-false, if◌then◌else◌, Option, none, some, arith, has_prefix,
}
use backend_pkg.Auth.Actor.{
  Uuid, UserClaims, Context, Got, not_found, got, get_actor, with_user_perms,
}

abbrev pub second : ℕ
second = 1000000000

abbrev pub revocation_clock_skew : ℕ
revocation_clock_skew = 5 * second

abbrev pub tokens_valid_after_ttl : ℕ
tokens_valid_after_ttl = 8 * 24 * 3600 * second

-- `issuedAt.Before(cutoff.Add(-RevocationClockSkew))`.
issued_before_cutoff : ℕ → ℕ → Bool
issued_before_cutoff issued_at cutoff = ltb (issued_at + revocation_clock_skew) cutoff

issued_early :
    (early now : ℕ)
    → early + revocation_clock_skew + second < now
    → issued_before_cutoff early ((now / second) * second) ≡ true
unfolding issued_before_cutoff
issued_early early now h = lt→ltb _ _ (omega arith)

issued_late :
    (late now : ℕ)
    → now ≤ late + revocation_clock_skew
    → issued_before_cutoff late ((now / second) * second) ≡ false
unfolding issued_before_cutoff
issued_late late now h = ltb-false _ _ (omega arith)

-- What a read of the store gives: the cutoff in seconds, no entry, or an error.
pub data Read : Type 0 where
  found : ℕ → Read
  missing : Read
  broken : Bytes → Read

-- Whether the token is revoked, and the error for the log.
pub token_revoked : Read → ℕ → Bool × Option Bytes
token_revoked (found cutoff) issued_at = (issued_before_cutoff issued_at (cutoff * second), none)
token_revoked missing issued_at = (false, none)
token_revoked (broken err) issued_at = (false, some err)

abbrev pub is_answer : Read → Bool
is_answer (found cutoff) = true
is_answer missing = true
is_answer (broken err) = false

-- The store of the cutoffs, as far as the code uses it. A cutoff that was set at some time, without an
-- error, is what a read of its user gives while it lives, if the read gives no error; that of another
-- user is not touched, error or not.
pub record CutoffStore : Type 1 where
  pub Store : Type 0
  pub set_global : Store → ℕ → Uuid → ℕ → ℕ → Store × Bool
  pub get_global : Store → ℕ → Uuid → Read
  pub get-set :
      (s : Store) (now later : ℕ) (u : Uuid) (v ttl : ℕ)
      → (set_global s now u v ttl).1 ≡ true
      → later < now + ttl
      → is_answer (get_global (set_global s now u v ttl).0 later u) ≡ true
      → get_global (set_global s now u v ttl).0 later u ≡ found v
  pub get-set_ne :
      (s : Store) (now later : ℕ) (u w : Uuid) (v ttl : ℕ)
      → ¬ (u ≡ w)
      → get_global (set_global s now u v ttl).0 later w ≡ get_global s later w

module _ (c : CutoffStore) where
  open c use {Store, set_global, get_global, get-set, get-set_ne}

  -- The new store, and whether there was no error. `time.Now().Unix()` drops the part of the second.
  unfoldable pub revoke_user_tokens : Store → Uuid → ℕ → Store × Bool
  revoke_user_tokens s user now = set_global s now user (now / second) tokens_valid_after_ttl

  pub user_token_revoked : Store → Uuid → ℕ → ℕ → Bool × Option Bytes
  user_token_revoked s user now issued_at = token_revoked (get_global s now user) issued_at

  -- Behind a revocation that reported no error, while its cutoff lives and where the store answers: every
  -- token of the user that was issued more than six seconds before is revoked, and none that was issued
  -- in the last five seconds before it or later is.
  revoke_user_tokens_lem :
      (s : Store) (user : Uuid) (now later early late : ℕ)
      → (revoke_user_tokens s user now).1 ≡ true
      → later < now + tokens_valid_after_ttl
      → is_answer (get_global (revoke_user_tokens s user now).0 later user) ≡ true
      → early + revocation_clock_skew + second < now
      → now ≤ late + revocation_clock_skew
      → (user_token_revoked (revoke_user_tokens s user now).0 user later early ≡ (true, none))
        × (user_token_revoked (revoke_user_tokens s user now).0 user later late ≡ (false, none))
  unfolding user_token_revoked revoke_user_tokens token_revoked
  revoke_user_tokens_lem s user now later early late ok lives answers he hl =
      let kept = get-set s now later user (now / second) tokens_valid_after_ttl ok lives answers in
      (rw (kept, issued_early early now he) refl, rw (kept, issued_late late now hl) refl)

  -- A revocation leaves the tokens of another user what they were, error or not.
  revoke_user_tokens_other :
      (s : Store) (user other : Uuid) (now later issued_at : ℕ)
      → ¬ (user ≡ other)
      → user_token_revoked (revoke_user_tokens s user now).0 other later issued_at
        ≡ user_token_revoked s other later issued_at
  unfolding user_token_revoked revoke_user_tokens
  revoke_user_tokens_other s user other now later issued_at ne =
      rw (get-set_ne s now later user other (now / second) tokens_valid_after_ttl ne) refl

unfoldable pub has_any_prefix : Bytes → List Bytes → Bool
has_any_prefix path [] = false
has_any_prefix path (p ∷ ps) =
    if not (p =ᵇ []) && has_prefix path p then true else has_any_prefix path ps

pub data Gate : Type 0 where
  goes_on : Context → Gate
  refuses : Gate

-- What the permission service gives.
pub data Resolved : Type 0 where
  resolved : List Bytes → Resolved
  unresolved : Bytes → Resolved

stash : Context → Resolved → Gate
stash ctx (resolved perms) = goes_on (with_user_perms ctx perms)
stash ctx (unresolved err) = goes_on (record ctx { perms_unresolved = true; user_perms = some [] })

-- Whether the revocation of the token is looked up, and then whether it is revoked.
revocation : Option UserClaims → Bool → (ℕ → Bool × Option Bytes) → Bool
revocation none exempt lookup = false
revocation (some c) exempt lookup = elim c.issued_at [
  | none ↦ false
  | some t ↦ elim exempt [ true ↦ false | false ↦ (lookup (t * second)).0 ]
]

identify_reply : Context → Bytes → List Bytes → (ℕ → Bool × Option Bytes) → Resolved → Got → Gate
unfolding stash revocation has_any_prefix
identify_reply ctx path exempt lookup perms not_found = goes_on ctx
identify_reply ctx path exempt lookup perms (got none) = goes_on ctx
identify_reply ctx path exempt lookup perms (got (some a)) =
    if a.is_guest || a.is_system
    then goes_on ctx
    else if revocation a.claims (has_any_prefix path exempt) lookup
    then refuses
    else stash ctx perms

-- `lookup` is the revocation of the actor's tokens, and `perms` what the resolver gives.
unfoldable pub identify_user_perms :
    Context → Bytes → List Bytes → (ℕ → Bool × Option Bytes) → Resolved → Gate
unfolding identify_reply
identify_user_perms ctx path exempt lookup perms =
    identify_reply ctx path exempt lookup perms (get_actor ctx)
