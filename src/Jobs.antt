-- ===== src/Jobs.antt =====
-- apps/jobs: the worker that sends the queued mail and cleans up what has expired.
pub mod Processor
pub mod Loop
mod Tests
