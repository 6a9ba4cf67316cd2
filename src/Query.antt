-- ===== src/Query.antt =====
-- tmsdb: the builder that turns filter, sort and page inputs into a query.
pub mod Gorm
pub mod Filters
pub mod Builder
pub mod CrossService
pub mod Logical
pub mod Sort
pub mod Page
pub mod Proto
pub mod Tenant
mod Examples
