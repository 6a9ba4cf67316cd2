-- ===== src/Auth/RateLimit.antt =====
-- ratelimit/ratelimit.go and middleware/ratelimit_middleware.go: a counter for each user and address.
-- The commands INCR and PEXPIRE belong to Redis and are the interface Redis; the reading of a duration
-- and the text of a UUID belong to the packages `time` and `uuid`.
pub mod Window
pub mod Guard
use backend_pkg.Common.{
  ℕ, ◌+◌, ◌/◌, ◌≡◌, Bool, true, false, ◌||◌, List, [], ◌∷◌, ◌++◌, Bytes, codes, ◌=ᵇ◌, ltb, leb,
  ◌==◌, if◌then◌else◌, Option, none, some, ℤ, pos, negsuc, trim_space, atoi,
}
use backend_pkg.Auth.Actor.{Uuid, Actor, Context, Got, not_found, got, get_actor}
use backend_pkg.Auth.Origin.{ClientOrigin}

-- A counter and the millisecond from which it is gone, if it has one.
pub record Counter : Type 0 where
  pub count : ℕ
  pub expires : Option ℕ

abbrev pub is_live : ℕ → Option ℕ → Bool
is_live now none = true
is_live now (some d) = ltb now d

abbrev pub live_count : ℕ → Option Counter → ℕ
live_count now none = 0
live_count now (some c) = if is_live now c.expires then c.count else 0

-- A counter that is gone starts anew, without an end.
abbrev pub incremented : ℕ → Option Counter → Counter
incremented now none = record { count = 1; expires = none }
incremented now (some c) =
    if is_live now c.expires
    then record c { count = c.count + 1 }
    else record { count = 1; expires = none }

-- A counter that is gone gets no end.
abbrev pub ended : ℕ → ℕ → Counter → Counter
ended now ms c = if is_live now c.expires then record c { expires = some (now + ms) } else c

abbrev pub ending : ℕ → ℕ → Option Counter → Option Counter
ending now ms none = none
ending now ms (some c) = some (ended now ms c)

-- What Redis documents of the two commands, at a time in milliseconds.
pub record Redis : Type 1 where
  pub State : Type 0
  pub entry : State → Bytes → Option Counter
  pub incr : State → ℕ → Bytes → State × ℕ
  pub pexpire : State → ℕ → Bytes → ℕ → State
  pub incr_count :
      (s : State) (now : ℕ) (k : Bytes) → (incr s now k).1 ≡ live_count now (entry s k) + 1
  pub entry-incr :
      (s : State) (now : ℕ) (k j : Bytes)
      → entry (incr s now k).0 j
        ≡ (if k =ᵇ j then some (incremented now (entry s k)) else entry s j)
  pub entry-pexpire :
      (s : State) (now : ℕ) (k : Bytes) (ms : ℕ) (j : Bytes)
      → entry (pexpire s now k ms) j ≡ (if k =ᵇ j then ending now ms (entry s k) else entry s j)

abbrev pub nanoseconds_per_millisecond : ℕ
nanoseconds_per_millisecond = 1000000

abbrev pub within : ℕ → ℤ → Bool
within n (pos limit) = leb n limit
within n (negsuc m) = false

abbrev pub bucket : Bytes → Bytes
bucket key = codes "ratelimit:" ++ key

module _ (r : Redis) where
  open r use {State, incr, pexpire}

  -- The script: a counter, and an end for it at its first hit.
  unfoldable pub incr_expire : State → ℕ → Bytes → ℕ → State × ℕ
  incr_expire s now k ms =
      let (s', n) = incr s now k in (if n == 1 then pexpire s' now k ms else s', n)

  -- Redis may not be set up, or fail in any state; else it answers.
  pub data Link : Type 0 where
    no_client answering : Link
    failing : State → Link

  -- The new state, whether the request is allowed, and whether there was an error.
  unfoldable pub allow : Link → State → ℕ → Bytes → ℤ → ℕ → State × Bool × Bool
  unfolding incr_expire
  allow no_client s now key limit window = (s, true, false)
  allow (failing s') s now key limit window = (s', true, true)
  allow answering s now key limit window =
      let (s', n) = incr_expire s now (bucket key) (window / nanoseconds_per_millisecond) in
      (s', within n limit, false)

pub record RateLimitConfig : Type 0 where
  pub max : ℤ
  pub window : ℕ

abbrev default_auth_rate_limit_max : ℤ
default_auth_rate_limit_max = pos 600

abbrev default_auth_rate_limit_window : ℕ
default_auth_rate_limit_window = 60000000000

abbrev pub is_positive : ℤ → Bool
is_positive (pos n) = ltb 0 n
is_positive (negsuc n) = false

abbrev positive_or : ℤ → Option ℤ → ℤ
positive_or d none = d
positive_or d (some n) = if is_positive n then n else d

-- `v` is the value of the variable, blank if it is not set.
env_int : Bytes → ℤ → ℤ
env_int v d = let t = trim_space v in if t =ᵇ [] then d else positive_or d (atoi t)

abbrev duration_or : ℕ → Option ℤ → ℕ
duration_or d none = d
duration_or d (some (pos n)) = if ltb 0 n then n else d
duration_or d (some (negsuc n)) = d

module _ (parse_duration : Bytes → Option ℤ) where
  pub env_duration : Bytes → ℕ → ℕ
  env_duration v d = let t = trim_space v in if t =ᵇ [] then d else duration_or d (parse_duration t)

  -- The settings before the options.
  pub env_config : Bytes → Bytes → RateLimitConfig
  unfolding env_duration env_int
  env_config max_env window_env = record {
    max = env_int max_env default_auth_rate_limit_max;
    window = env_duration window_env default_auth_rate_limit_window;
  }

-- `WithAuthRateLimit(max, window)`.
unfoldable with_auth_rate_limit : ℤ → ℤ → RateLimitConfig → RateLimitConfig
with_auth_rate_limit max window c = record {
  max = positive_or c.max (some max);
  window = duration_or c.window (some window);
}

apply_options : List (RateLimitConfig → RateLimitConfig) → RateLimitConfig → RateLimitConfig
apply_options [] c = c
apply_options (opt ∷ opts) c = apply_options opts (opt c)

-- A request that is throttled is answered with 429 and goes no further.
pub data Outcome : Type 0 where
  next : Outcome
  too_many_requests : ℕ → Outcome

abbrev nanoseconds_per_second : ℕ
nanoseconds_per_second = 1000000000

unfoldable pub retry_after : ℕ → ℕ
retry_after window = let n = window / nanoseconds_per_second in if ltb n 1 then 1 else n

abbrev pub origin_ip : Option ClientOrigin → Bytes
origin_ip none = []
origin_ip (some o) = o.ip

module _ (uuid_text : Uuid → Bytes) where
  unfoldable pub user_key : Uuid → Bytes → Bytes
  user_key id ip =
      let key = codes "auth:" ++ uuid_text id in if ip =ᵇ [] then key else key ++ (b':' ∷ ip)

module _ {S : Type 0} (uuid_text : Uuid → Bytes)
    (allow_key : S → Bytes → ℤ → ℕ → S × Bool × Bool) where
  abbrev reply_of : ℕ → S × Bool × Bool → S × Outcome
  reply_of window (s, allowed, failed) =
      (s, if allowed then next else too_many_requests (retry_after window))

  unfoldable pub counted : RateLimitConfig → S → Actor → Bytes → S × Outcome
  unfolding user_key retry_after
  counted c s a ip =
      if a.is_guest || a.is_system
      then (s, next)
      else reply_of c.window (allow_key s (user_key uuid_text a.id ip) c.max c.window)

  unfoldable pub guard_actor : RateLimitConfig → S → Got → Bytes → S × Outcome
  unfolding counted
  guard_actor c s not_found ip = (s, next)
  guard_actor c s (got none) ip = (s, next)
  guard_actor c s (got (some a)) ip = counted c s a ip

  unfoldable pub rate_limit_authenticated :
      RateLimitConfig → S → Context → Option ClientOrigin → S × Outcome
  unfolding guard_actor
  rate_limit_authenticated c s ctx origin = guard_actor c s (get_actor ctx) (origin_ip origin)
