-- ===== src/Auth/Examples/Traffic.antt =====
-- The theorems on rate limiting and on the origin of a request at concrete inputs, with a store of
-- counters that is an association list.
use backend_pkg.Common.{
  ℕ, suc, split_on, trim_space, ◌≤◌, ◌+◌, ◌≡◌, refl, Bool, true, false, List, [], ◌∷◌, Bytes, codes,
  ◌=ᵇ◌, if◌then◌else◌, Option, none, some, ℤ, pos, lookup, insert, lookup-insert, arith, Bool-cases,
  inl, inr, =ᵇ→eq,
}
use backend_pkg.Auth.Actor.{Uuid, Actor, Context, present, get_actor, got}
use backend_pkg.Auth.Origin.{
  Request, trusted_proxy_hops, resolve_client_ip, resolve_client_ip_forged,
}
use backend_pkg.Auth.RateLimit.{
  Redis, Counter, live_count, incremented, ended, ending, allow, RateLimitConfig,
  rate_limit_authenticated, user_key, answering,
}
use backend_pkg.Auth.RateLimit.Window.{answers, after, allow_window, allow_again, budget, hits_of}
use backend_pkg.Auth.RateLimit.Guard.{rate_limit_authenticated_sound}

abbrev Store : Type 0
Store = List (Bytes × Counter)

expire_at : ℕ → ℕ → Bytes → Option Counter → Store → Store
expire_at now ms k none s = s
expire_at now ms k (some c) s = insert k (ended now ms c) s

lookup-expire_at :
    (now ms : ℕ) (k j : Bytes) (e : Option Counter) (s : Store)
    → lookup k s ≡ e
    → lookup j (expire_at now ms k e s) ≡ (if k =ᵇ j then ending now ms e else lookup j s)
unfolding expire_at
lookup-expire_at now ms k j none s h = elim (Bool-cases (k =ᵇ j)) [
  | inl e ↦ let k_is : k ≡ j = =ᵇ→eq k j e in rw e (rw k_is at h)
  | inr e ↦ rw e refl
]
lookup-expire_at now ms k j (some c) s h = lookup-insert k j (ended now ms c) s

abbrev store : Redis
store = record {
  State = Store;
  entry = λ s k. lookup k s;
  incr = λ s now k. (insert k (incremented now (lookup k s)) s, live_count now (lookup k s) + 1);
  pexpire = λ s now k ms. expire_at now ms k (lookup k s) s;
  incr_count = λ s now k. refl;
  entry-incr = λ s now k j. lookup-insert k j (incremented now (lookup k s)) s;
  entry-pexpire = λ s now k ms j. lookup-expire_at now ms k j (lookup k s) s refl;
}

-- Three hits of one key and one of another within a window of 60 ms, with two free.
abbrev traffic : List (Bytes × ℕ)
traffic = (codes "b", 11) ∷ (codes "a", 12) ∷ (codes "a", 70) ∷ []

allow_window_example :
    answers store 2 60000000 (codes "a") [] ((codes "a", 11) ∷ traffic)
    ≡ budget 2 (suc (hits_of (codes "a") traffic))
unfolding lookup
allow_window_example =
    allow_window store 2 60000000 (codes "a") [] 11 traffic refl
      (λ e. omega arith, (λ e. omega arith, (λ e. omega arith, tt)))

third_refused :
    answers store 2 60000000 (codes "a") [] ((codes "a", 11) ∷ traffic) ≡ true ∷ true ∷ false ∷ []
unfolding answers allow lookup insert expire_at ◌=ᵇ◌
third_refused = refl

allow_again_example :
    (allow store answering
      (after store 2 60000000 [] ((codes "a", 11) ∷ traffic))
      71
      (codes "a")
      (pos 2)
      60000000).1
    ≡ true
unfolding lookup
allow_again_example =
    allow_again store 2 60000000 (codes "a") [] 11 traffic 71 refl
      (λ e. omega arith, (λ e. omega arith, (λ e. omega arith, tt))) (omega arith) (omega arith)

abbrev courier : Actor
courier = record { id = 3; claims = none; is_system = false; is_guest = false }

abbrev courier_request : Context
courier_request = record { actor = present courier; user_perms = none; perms_unresolved = false }

abbrev short_id : Uuid → Bytes
short_id n = n ∷ []

-- A limiter that has nothing left to give.
abbrev used_up : ℕ → Bytes → ℤ → ℕ → ℕ × Bool × Bool
used_up s key max window = (suc s, false, false)

abbrev config : RateLimitConfig
config = record { max = pos 600; window = 60000000000 }

rate_limit_authenticated_sound_example :
    (a : Actor) × (get_actor courier_request ≡ got (some a))
    × (((a.is_guest ≡ false) × (a.is_system ≡ false))
        × ((used_up 0 (user_key short_id a.id []) (pos 600) 60000000000).1 ≡ false)
        × (1 ≤ 60))
unfolding rate_limit_authenticated get_actor
rate_limit_authenticated_sound_example =
    rate_limit_authenticated_sound short_id used_up config 0 courier_request none refl

-- Every text is an address, and none has a port.
abbrev any_ip : Bytes → Option Bytes
any_ip = some

abbrev no_port : Bytes → Option Bytes
no_port s = none

abbrev behind_proxy : Request
behind_proxy = record {
  remote_addr = codes "10.0.0.9";
  forwarded_for = [];
  client_user_agent = [];
  plain_user_agent = [];
}

resolve_client_ip_forged_example :
    resolve_client_ip any_ip no_port []
      (some (record behind_proxy { forwarded_for = codes "1.1.1.1, 2.2.2.2,8.8.8.8" }))
    ≡ resolve_client_ip any_ip no_port []
        (some (record behind_proxy { forwarded_for = codes "8.8.8.8" }))
unfolding trusted_proxy_hops split_on trim_space ◌=ᵇ◌
resolve_client_ip_forged_example =
    resolve_client_ip_forged any_ip no_port [] behind_proxy (codes "1.1.1.1, 2.2.2.2")
      (codes "8.8.8.8") (omega arith)
