-- ===== src/Auth/RateLimit/Guard.antt =====
-- Whom the middleware of middleware/ratelimit_middleware.go throttles, and the counters it uses.
use backend_pkg.Common.{
  ℕ, ◌≤◌, ◌≡◌, refl, ap, sym, ◌∙◌, Bool, true, false, [], ◌∷◌, ◌++◌, Bytes, codes, ◌=ᵇ◌,
  if◌then◌else◌, Option, none, some, ℤ, arith, length, Bool-cases, inl, inr,
}
use mathlib.Core.List.{append-nil}
use backend_pkg.Auth.Actor.{Uuid, Actor, Context, Got, not_found, got, get_actor}
use backend_pkg.Auth.Origin.{ClientOrigin}
use backend_pkg.Auth.RateLimit.{
  RateLimitConfig, Outcome, next, too_many_requests, rate_limit_authenticated, user_key,
  retry_after, origin_ip, counted, guard_actor,
}

abbrev is_throttled : Outcome → Bool
is_throttled next = false
is_throttled (too_many_requests n) = true

abbrev wait_of : Outcome → ℕ
wait_of next = 0
wait_of (too_many_requests n) = n

retry_after_pos : (window : ℕ) → 1 ≤ retry_after window
unfolding retry_after
retry_after_pos window = ground arith

abbrev User : Actor → Type 0
User a = (a.is_guest ≡ false) × (a.is_system ≡ false)

module _ {S : Type 0} (uuid_text : Uuid → Bytes) (allow_key : S → Bytes → ℤ → ℕ → S × Bool × Bool)
    (c : RateLimitConfig) (s : S) where
  abbrev Refused : Actor → Bytes → Outcome → Type 0
  Refused a ip out =
      User a
      × ((allow_key s (user_key uuid_text a.id ip) c.max c.window).1 ≡ false)
      × (1 ≤ wait_of out)

  counted_sound :
      (a : Actor) (ip : Bytes)
      → is_throttled (counted uuid_text allow_key c s a ip).1 ≡ true
      → Refused a ip (counted uuid_text allow_key c s a ip).1
  unfolding counted
  counted_sound a ip h = ground (arith, retry_after_pos c.window)

  guard_actor_sound :
      (g : Got) (ip : Bytes)
      → is_throttled (guard_actor uuid_text allow_key c s g ip).1 ≡ true
      → (a : Actor) × (g ≡ got (some a)) × Refused a ip (guard_actor uuid_text allow_key c s g ip).1
  unfolding guard_actor
  guard_actor_sound not_found ip h = cc
  guard_actor_sound (got none) ip h = cc
  guard_actor_sound (got (some a)) ip h = (a, refl, counted_sound a ip h)

  -- A request that is throttled is one of a user, not of a guest or of the system; the limiter has
  -- refused the counter of this user and address, and the client is told to wait a second at least.
  pub rate_limit_authenticated_sound :
      (ctx : Context) (origin : Option ClientOrigin)
      → is_throttled (rate_limit_authenticated uuid_text allow_key c s ctx origin).1 ≡ true
      → (a : Actor) × (get_actor ctx ≡ got (some a))
        × Refused a
            (origin_ip origin)
            (rate_limit_authenticated uuid_text allow_key c s ctx origin).1
  unfolding rate_limit_authenticated
  rate_limit_authenticated_sound ctx origin h =
      guard_actor_sound (get_actor ctx) (origin_ip origin) h

abbrev tail : Bytes → Bytes
tail [] = []
tail (c ∷ s) = s

append_cancel : (p q s t : Bytes) → length p ≡ length q → p ++ s ≡ q ++ t → (p ≡ q) × (s ≡ t)
append_cancel [] [] s t n h = (refl, h)
append_cancel [] (b ∷ q) s t n h = absurd (omega (arith, n))
append_cancel (a ∷ p) [] s t n h = absurd (omega (arith, n))
append_cancel (a ∷ p) (b ∷ q) s t n h =
    let (e, r) = append_cancel p q s t (omega (arith, n)) (ap tail h) in
    let d : a ≡ b = cc in (rw (d, e) refl, r)

-- `key += ":" + ip`, if there is an address.
suffix : Bytes → Bytes
suffix ip = if ip =ᵇ [] then [] else b':' ∷ ip

suffix_injective : (i j : Bytes) → suffix i ≡ suffix j → i ≡ j
unfolding suffix ◌=ᵇ◌
suffix_injective [] [] h = refl
suffix_injective [] (b ∷ j) h = cc
suffix_injective (a ∷ i) [] h = cc
suffix_injective (a ∷ i) (b ∷ j) h = cc

user_key-suffix :
    (uuid_text : Uuid → Bytes) (id : Uuid) (ip : Bytes)
    → user_key uuid_text id ip ≡ codes "auth:" ++ (uuid_text id ++ suffix ip)
unfolding user_key suffix
user_key-suffix uuid_text id ip = elim (Bool-cases (ip =ᵇ [])) [
  | inl e ↦ rw (e, append-nil) refl
  | inr e ↦ rw e refl
]

-- Two users, or two addresses of one, never count against the same counter.
user_key_injective :
    (uuid_text : Uuid → Bytes) (id other : Uuid) (ip ip' : Bytes)
    → length (uuid_text id) ≡ length (uuid_text other)
    → (uuid_text id ≡ uuid_text other → id ≡ other)
    → user_key uuid_text id ip ≡ user_key uuid_text other ip'
    → (id ≡ other) × (ip ≡ ip')
user_key_injective uuid_text id other ip ip' width names h =
    let (e, r) =
      append_cancel (codes "auth:" ++ uuid_text id) (codes "auth:" ++ uuid_text other) (suffix ip)
        (suffix ip') (omega (arith, width))
        (sym (user_key-suffix uuid_text id ip) ∙ h ∙ user_key-suffix uuid_text other ip') in
    (names (append_cancel (codes "auth:") (codes "auth:") _ _ refl e).1, suffix_injective ip ip' r)
