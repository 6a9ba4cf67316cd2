-- ===== src/Events.antt =====
-- eventlog/events: how an audit event is classified, who took part in it, and to which root it
-- belongs.
pub mod Sensitivity
pub mod Classify
pub mod Participants
pub mod Hierarchy
pub mod Outbox
mod Examples
