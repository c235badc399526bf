-- ===== src/Core.antt =====
-- The services of internal/core.
pub mod Generation
pub mod Check
pub mod Submit
pub mod Cancel
pub mod Get
pub mod Usage
pub mod Stream
pub mod Queue
pub mod Sweep
pub mod System
