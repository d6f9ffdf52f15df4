-- ===== src/Database.antt =====
-- packages/database/src: the tables of a wedding and the repositories over them.
mod Tests
mod PlanningTests
pub mod Rows
pub mod Operations
pub mod Planning
