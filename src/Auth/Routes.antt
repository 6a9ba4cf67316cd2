-- ===== src/Auth/Routes.antt =====
-- middleware/auth_middleware.go: the guards of the routes. A guard lets the request go on, refuses
-- it with a status, or panics on a nil actor.
use backend_pkg.Common.{
  ◌≡◌, refl, true, false, ◌&&◌, ◌||◌, not, List, [], ◌∷◌, Bytes, ◌=ᵇ◌, if◌then◌else◌, Option, none,
  some, arith, contains, Any, ◌≢◌, inl, inr,
}
use backend_pkg.Perms.{has_permission, has_any_permission}
use backend_pkg.Perms.Grants.{Grants, has_permissions_iff, has_permission_iff}
use backend_pkg.Auth.Actor.{
  Actor, UserClaims, Context, present, Got, not_found, got, get_actor, with_actor, is_super_admin,
  is_admin,
}

pub data Reply : Type 0 where
  next unauthorized forbidden perms_unresolved panics : Reply

auth_reply : Got → Reply
auth_reply not_found = unauthorized
auth_reply (got none) = panics
auth_reply (got (some a)) = if a.is_guest then unauthorized else next

require_auth : Context → Reply
unfolding auth_reply
require_auth ctx = auth_reply (get_actor ctx)

abbrev perms_of : Option (List Bytes) → List Bytes
perms_of none = []
perms_of (some ps) = ps

unfoldable pub get_user_perms : Context → List Bytes
get_user_perms ctx = perms_of ctx.user_perms

-- The loop over the codes of the route.
any_of : List Bytes → List Bytes → Reply
any_of user_perms [] = forbidden
any_of user_perms (required ∷ perms) =
    if has_permission user_perms required then next else any_of user_perms perms

perms_reply : List Bytes → Context → Got → Reply
unfolding any_of
perms_reply perms ctx not_found = unauthorized
perms_reply perms ctx (got none) = unauthorized
perms_reply perms ctx (got (some a)) =
    if a.is_guest || is_super_admin a
    then next
    else if ctx.perms_unresolved
    then perms_unresolved
    else any_of (get_user_perms ctx) perms

unfoldable pub require_perms : List Bytes → Context → Reply
unfolding perms_reply
require_perms perms ctx = perms_reply perms ctx (get_actor ctx)

admin_reply : Got → Reply
admin_reply not_found = unauthorized
admin_reply (got none) = unauthorized
admin_reply (got (some a)) = if not (is_admin a) && not (is_super_admin a) then forbidden else next

require_admin : Context → Reply
unfolding admin_reply
require_admin ctx = admin_reply (get_actor ctx)

super_admin_reply : Got → Reply
super_admin_reply not_found = unauthorized
super_admin_reply (got none) = unauthorized
super_admin_reply (got (some a)) = if not (is_super_admin a) then forbidden else next

unfoldable require_super_admin : Context → Reply
unfolding super_admin_reply
require_super_admin ctx = super_admin_reply (get_actor ctx)

auth_or_guest_reply : Got → Reply
auth_or_guest_reply not_found = unauthorized
auth_or_guest_reply (got a) = next

require_auth_or_guest : Context → Reply
unfolding auth_or_guest_reply
require_auth_or_guest ctx = auth_or_guest_reply (get_actor ctx)

-- A guest without claims panics too.
resource_reply : List Bytes → Option UserClaims → Reply
resource_reply [] claims = forbidden
resource_reply (r ∷ rs) none = panics
resource_reply (r ∷ rs) (some c) = if c.resource =ᵇ r then next else resource_reply rs (some c)

guest_reply : List Bytes → Got → Reply
unfolding resource_reply
guest_reply allowed not_found = panics
guest_reply allowed (got none) = panics
guest_reply allowed (got (some a)) =
    if not a.is_guest then next else resource_reply allowed a.claims

check_guest_resource : List Bytes → Context → Reply
unfolding guest_reply
check_guest_resource allowed ctx = guest_reply allowed (get_actor ctx)

clear_auth_context : Context → Context
clear_auth_context ctx = with_actor ctx none

-- Which reply the guard of a permission gives to an actor: a guest and a super admin go on whatever
-- they hold; of anybody else unresolved permissions are never taken for a denial, and resolved ones
-- let the request go on exactly if they grant one of the codes of the route.
abbrev expected : List Bytes → Context → Actor → Reply
expected perms ctx a =
    if a.is_guest || is_super_admin a
    then next
    else if ctx.perms_unresolved
    then perms_unresolved
    else if has_any_permission (get_user_perms ctx) perms
    then next
    else forbidden

any_of_lem :
    (user_perms perms : List Bytes)
    → any_of user_perms perms ≡ (if has_any_permission user_perms perms then next else forbidden)
unfolding any_of has_any_permission
any_of_lem user_perms [] = refl
any_of_lem user_perms (r ∷ perms) = ground (arith, any_of_lem user_perms perms)

require_perms_lem :
    (perms : List Bytes) (ctx : Context) (a : Actor)
    → ctx.actor ≡ present a
    → require_perms perms ctx ≡ expected perms ctx a
unfolding require_perms get_actor
require_perms_lem perms ctx a h = ground (arith, any_of_lem (get_user_perms ctx) perms)

-- An actor who is neither a guest nor a super admin goes on only if the permissions were resolved and
-- one of the held keys is a code of the route or an ancestor of one.
pub require_perms_sound :
    (perms : List Bytes) (ctx : Context) (a : Actor)
    → ctx.actor ≡ present a
    → a.is_guest ≡ false
    → is_super_admin a ≡ false
    → require_perms perms ctx ≡ next
    → (ctx.perms_unresolved ≡ false)
      × Any
          (λ r. (r ≢ []) × ((p : Bytes) × (contains (get_user_perms ctx) p ≡ true) × Grants p r))
          perms
require_perms_sound perms ctx a h guest super e =
    let (resolved, granted) = passed perms ctx a h guest super e in
    (resolved, Any-map perms ((has_permissions_iff (get_user_perms ctx) perms).1.0 granted))
  where
    passed :
        (perms : List Bytes) (ctx : Context) (a : Actor)
        → ctx.actor ≡ present a
        → a.is_guest ≡ false
        → is_super_admin a ≡ false
        → require_perms perms ctx ≡ next
        → (ctx.perms_unresolved ≡ false) × (has_any_permission (get_user_perms ctx) perms ≡ true)
    passed perms ctx a h guest super e = ground (arith, require_perms_lem perms ctx a h)

    Any-map :
        (rs : List Bytes)
        → Any (λ r. has_permission (get_user_perms ctx) r ≡ true) rs
        → Any
            (λ r. (r ≢ []) × ((p : Bytes) × (contains (get_user_perms ctx) p ≡ true) × Grants p r))
            rs
    Any-map [] k = absurd k
    Any-map (r ∷ rs) (inl k) = inl ((has_permission_iff (get_user_perms ctx) r).0 k)
    Any-map (r ∷ rs) (inr k) = inr (Any-map rs k)

-- A request is refused for a missing permission only if the permissions were resolved and grant none
-- of the codes of the route.
pub require_perms_denial :
    (perms : List Bytes) (ctx : Context)
    → require_perms perms ctx ≡ forbidden
    → (ctx.perms_unresolved ≡ false) × (has_any_permission (get_user_perms ctx) perms ≡ false)
unfolding require_perms get_actor
require_perms_denial perms ctx h = ground (arith, any_of_lem (get_user_perms ctx) perms)

-- After the actor was cleared, whoever it was, the guards disagree: those of permissions and of admins
-- refuse the request, that of users panics, and that of users or guests lets it through.
cleared_actor :
    (ctx : Context) (perms : List Bytes)
    → (require_perms perms (clear_auth_context ctx) ≡ unauthorized)
      × (require_admin (clear_auth_context ctx) ≡ unauthorized)
      × (require_auth (clear_auth_context ctx) ≡ panics)
      × (require_auth_or_guest (clear_auth_context ctx) ≡ next)
unfolding require_perms require_admin require_auth require_auth_or_guest clear_auth_context
    get_actor with_actor
cleared_actor ctx perms = (refl, refl, refl, refl)
