-- ===== src/Route.antt =====
-- client/here: the decoding of the routes that the map service answers with.
pub mod Polyline
mod Examples
