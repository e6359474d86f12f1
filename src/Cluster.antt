-- ===== src/Cluster.antt =====
-- operator/internal/controller/proxysqlcluster_controller.go: the reconciler of ProxySQLCluster,
-- and the variables of builders/proxysql_cnf.go.
pub mod Phase
pub mod Status
pub mod Variables
