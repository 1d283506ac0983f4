-- ===== src/Local.antt =====
-- src/cogindex/_runtime_local.py: the runtime over the Cognee that is installed in this process.
pub mod Checks
pub mod Scope
pub mod Results
pub mod Datasets
pub mod Groups
pub mod Sdk
pub mod Binding
pub mod Operations
pub mod Frame
pub mod Session
pub mod Live
