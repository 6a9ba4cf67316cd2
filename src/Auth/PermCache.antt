-- ===== src/Auth/PermCache.antt =====
-- auth/perm_resolver.go: the permissions of a user, from the cache or from the permission service, and
-- the keys that an invalidation drops.
use backend_pkg.Common.{
  ◌≡◌, ◌≢◌, refl, ◌⊎◌, inl, inr, List, [], ◌∷◌, ◌++◌, Bytes, codes, ◌=ᵇ◌, if◌then◌else◌, Option,
  none, some, arith,
}
use backend_pkg.Auth.Actor.{Uuid}

-- A read of the cache: an entry, none, or an error.
pub data CacheRead : Type 0 where
  hit : List Bytes → CacheRead
  miss : CacheRead
  error : Bytes → CacheRead

-- The answer of the permission service; an absent list reads as the empty one.
pub data Answer : Type 0 where
  perms_are : List Bytes → Answer
  failed : Bytes → Answer

-- The permissions, the error, and what is written to the cache.
pub record Resolution : Type 0 where
  pub perms : List Bytes
  pub err : Option Bytes
  pub stored : Option (List Bytes)

abbrev to_write : List Bytes → Option (List Bytes)
to_write [] = none
to_write (p ∷ ps) = some (p ∷ ps)

answer_of : Answer → Resolution
answer_of (perms_are ps) = record { perms = ps; err = none; stored = to_write ps }
answer_of (failed e) = record { perms = []; err = some e; stored = none }

-- The function that is run once for all who wait: the cache is read again first.
resolve_once : CacheRead → Answer → Resolution
unfolding answer_of
resolve_once (hit ps) answer = record { perms = ps; err = none; stored = none }
resolve_once miss answer = answer_of answer
resolve_once (error e) answer = answer_of answer

unfoldable pub get_user_perms : CacheRead → CacheRead → Answer → Resolution
unfolding resolve_once
get_user_perms (hit ps) again answer = record { perms = ps; err = none; stored = none }
get_user_perms miss again answer = resolve_once again answer
get_user_perms (error e) again answer = resolve_once again answer

-- Which permissions a result may hold: those of one of the reads, or those of the service.
abbrev Sourced : CacheRead → CacheRead → Answer → List Bytes → Type 0
Sourced first again answer ps = (first ≡ hit ps) ⊎ (again ≡ hit ps) ⊎ (answer ≡ perms_are ps)

-- A result without an error is what a read of the cache or the service gave. With an error the service
-- failed, the list is empty and nothing is written.
get_user_perms_sound :
    (first again : CacheRead) (answer : Answer)
    → ((get_user_perms first again answer).err ≡ none)
        × Sourced first again answer (get_user_perms first again answer).perms
      ⊎ ((e : Bytes) × (answer ≡ failed e)
          × ((get_user_perms first again answer).err ≡ some e)
          × ((get_user_perms first again answer).perms ≡ [])
          × ((get_user_perms first again answer).stored ≡ none))
unfolding get_user_perms
get_user_perms_sound (hit ps) again answer = inl (refl, inl refl)
get_user_perms_sound miss (hit ps) answer = inl (refl, inr (inl refl))
get_user_perms_sound miss miss (perms_are ps) = inl (refl, inr (inr refl))
get_user_perms_sound miss miss (failed e) = inr (e, refl, refl, refl, refl)
get_user_perms_sound miss (error x) (perms_are ps) = inl (refl, inr (inr refl))
get_user_perms_sound miss (error x) (failed e) = inr (e, refl, refl, refl, refl)
get_user_perms_sound (error y) (hit ps) answer = inl (refl, inr (inl refl))
get_user_perms_sound (error y) miss (perms_are ps) = inl (refl, inr (inr refl))
get_user_perms_sound (error y) miss (failed e) = inr (e, refl, refl, refl, refl)
get_user_perms_sound (error y) (error x) (perms_are ps) = inl (refl, inr (inr refl))
get_user_perms_sound (error y) (error x) (failed e) = inr (e, refl, refl, refl, refl)

-- What is written to the cache is a list that is not empty, and the one that the service gave.
get_user_perms_written :
    (first again : CacheRead) (answer : Answer) (ps : List Bytes)
    → (get_user_perms first again answer).stored ≡ some ps
    → (ps ≢ []) × (answer ≡ perms_are ps) × ((get_user_perms first again answer).perms ≡ ps)
unfolding get_user_perms
get_user_perms_written first again answer ps h = ground arith

-- `cache.ScopedKey`.
scoped_key : Bytes → Bytes → Bytes
scoped_key [] key = key
scoped_key (c ∷ company) key = (c ∷ company) ++ (codes ":" ++ key)

-- `show` is the text of a UUID.
module _ (show : Uuid → Bytes) where
  cache_key : Uuid → Bytes
  cache_key user = codes "user_perms:" ++ show user

  -- The keys of each user, with the prefix of the acting company, if it has one.
  keys_for : Bytes → List Uuid → List Bytes
  keys_for prefix [] = []
  keys_for prefix (u ∷ us) =
      let rest = keys_for prefix us in
      cache_key u ∷ (if prefix =ᵇ [] then rest else scoped_key prefix (cache_key u) ∷ rest)

  abbrev legacy_prefix : Option Uuid → Bytes
  legacy_prefix none = []
  legacy_prefix (some c) = show c

  perm_cache_keys : Option Uuid → List Uuid → List Bytes
  unfolding keys_for
  perm_cache_keys company users = keys_for (legacy_prefix company) users
