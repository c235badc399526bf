-- ===== src/Core/Check.antt =====
-- `GenerationCheck`, internal/core/generationCheck.go: it looks at one generation and applies the
-- transition that is due. Deadlines of contexts are not modelled: a call that runs out of its time
-- is a call whose dependency answered with an error.
pub mod Outcome
pub mod Deps
pub mod Commit
pub mod Observe
pub mod RecordCall
pub mod Start
pub mod Exec
pub mod Stops
pub mod Writes
pub mod Accepted
pub mod Atomic
pub mod Classes
pub mod Scenario
mod Tests
pub mod Sends
pub mod Once
pub mod Recorded
pub mod Reach
