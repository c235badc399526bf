-- ===== src/Core/Check/Reach.antt =====
-- A check, and a relation that holds along each call that it makes.
pub mod Commit
pub mod Observe
pub mod Start
pub mod Exec
pub mod Tables
