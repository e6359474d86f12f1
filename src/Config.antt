-- ===== src/Config.antt =====
-- operator/internal/controller/proxysqlconfig_controller.go and rds_reconcile.go: the reconciler of
-- ProxySQLConfig.
pub mod Desired
pub mod Union
pub mod Replica
pub mod Reconcile
pub mod Finalize
