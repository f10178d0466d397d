-- ===== src/Commands.antt =====
-- The life of a command (app/main.py): sent to the device, then confirmed, reverted or lost.
pub mod Rows
pub mod Apply
pub mod Verify
pub mod Steps
pub mod Tracked
pub mod Updates
pub mod History
pub mod Jobs
pub mod Occurs
pub mod Deadline
