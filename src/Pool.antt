-- ===== src/Pool.antt =====
-- src/vomero_sandbox/runner.py, the class SandboxPool.
pub mod Recovery
pub mod State
pub mod Keeps
pub mod Cluster
pub mod Execution
pub mod Workers
pub mod Quiet
pub mod Effects
pub mod Lifecycle
pub mod Dispatch
