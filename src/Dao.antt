-- ===== src/Dao.antt =====
-- The data access layer, internal/dao: the rows, the statements of the .sql files as functions on
-- the tables, and the Go functions around them, which turn what PostgreSQL answers into errors.
pub mod Rows
pub mod Answers
pub mod Lifecycle
pub mod Submit
pub mod SweepLock
pub mod Reads
pub mod Records
pub mod Consistency
pub mod Steps
pub mod Kept
pub mod History
pub mod Recorded
pub mod InFlight
pub mod Updates
pub mod Fencing
pub mod Replay
pub mod Pages
pub mod Listing
mod Tests
