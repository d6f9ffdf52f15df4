-- ===== src/Auth.antt =====
-- packages/auth/src, with the store behind it (packages/database/src/auth-queries.ts and
-- auth-repository.ts).
pub mod Types
pub mod Tables
pub mod Store
pub mod Email
pub mod Semaphore
pub mod Service
mod Tests
