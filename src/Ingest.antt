-- ===== src/Ingest.antt =====
-- How a poll's report reaches the database (app/main.py).
pub mod Counters
pub mod Register
pub mod Channel
pub mod Collect
pub mod Resent
pub mod Rates
pub mod Stuck
