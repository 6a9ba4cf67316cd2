-- ===== src/Query/Tenant/Hooks.antt =====
-- tmsdb/model: what a hook on the rows of a tenant returns, and the actor it asks for.
pub mod Company
pub mod Shared
use backend_pkg.Common.{Option, none, some, Bytes}
use backend_pkg.Auth.Actor.{Actor, Got, not_found, got}

-- The hook returns an error, panics on nil claims, or leaves the row as it is to be written.
pub data Hooked {ℓ} (A : Type ℓ) : Type ℓ where
  proceeds : A → Hooked A
  fails : Bytes → Hooked A
  panics : Hooked A

-- `actor, _ := middleware.GetActor(ctx)`.
abbrev pub found_actor : Got → Option Actor
found_actor not_found = none
found_actor (got a) = a
