-- ===== src/Examples.antt =====
-- Concrete runs of the models: their test data, and the theorems at work on them.
pub mod Credentials
pub mod Capabilities
pub mod Control
pub mod Proxy
pub mod Execution
pub mod Run
pub mod Schemas
pub mod Replay
pub mod Rows
pub mod Ir
pub mod Handler
pub mod Sdk
