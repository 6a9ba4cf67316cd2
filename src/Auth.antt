-- ===== src/Auth.antt =====
-- middleware, consts and auth: who acts, what a route lets through, and the caches behind
-- it.
pub mod Actor
pub mod Routes
pub mod Revocation
pub mod PermCache
pub mod Origin
pub mod RateLimit
mod Examples
