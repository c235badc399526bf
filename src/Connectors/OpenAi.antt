-- ===== src/Connectors/OpenAi.antt =====
-- The connector of internal/lib/connectors/openai.go, over the HTTP client that it is given.
pub mod Classify
pub mod Response
pub mod Operations
pub mod Stream
pub mod Holds
mod Tests
