-- ===== src/Client.antt =====
-- operator/internal/proxysqlclient: the resolved configuration and the code that pushes it to the
-- admin port of a ProxySQL instance and compares it with what that instance runs.
pub mod Types
pub mod Quote
pub mod Literals
pub mod Executor
pub mod Redact
pub mod Sync
pub mod Port
pub mod Classes
pub mod Runtime
pub mod Drift
pub mod Union
