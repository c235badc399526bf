-- ===== src/Core/Submit.antt =====
-- `GenerationSubmit`, internal/core/generationSubmit.go.
pub mod Request
pub mod Key
pub mod Admit
pub mod Exec
pub mod Identity
pub mod Limits
pub mod Replay
pub mod Scenario
mod Tests
pub mod Admission
