-- ===== src/Auth/Store.antt =====
-- The statements of the authentication store.
pub mod RateLimits
pub mod Sessions
pub mod Issues
pub mod EmailJobs
