-- ===== src/Gate.antt =====
-- rmsgate: the client of the policy gate, which degrades by the fail mode of the process when the
-- gate cannot be asked.
pub mod Steps
pub mod Registry
pub mod Client
pub mod Register
mod Examples
