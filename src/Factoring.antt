-- ===== src/Factoring.antt =====
-- client/factoring: what a factoring company accepts, and the upload of a batch of invoices.
pub mod Invoices
pub mod Rules
pub mod Submit
mod Examples
