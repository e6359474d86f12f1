-- ===== src/Lib.antt =====
-- The ProxySQL operator for Kubernetes: a model of its core and the theorems about it.
--
-- The operator (operator/) keeps ProxySQL instances at the configuration that custom resources
-- describe. For each instance it merges the configurations that name its cluster (Union), reads what
-- the instance runs (ReadRuntime), compares the two (Drift), and, where they differ or a resync is due,
-- pushes the whole configuration over the instance's admin port (Sync). When the bootstrap file of a
-- cluster changes, the operator decides whether its instances need a restart (classifyCnfChange). When
-- the content of its TLS Secret changes, it makes every ready pod load the new certificate, and falls
-- back to a restart when that takes too long (resolveTLSRotation). A configuration's status records what
-- was pushed (reconcileReadyReplicas), and a deleted one is taken out of the instances before its
-- finalizer is released (finalize).
--
-- Files, with the code that each models (paths from the repository's root):
--   * Base and below: what the code uses of Go and its standard library. Strings are their bytes, maps
--     are association lists, int32 is an integer; sort, strconv and strings are functions. Base/Calls has
--     functions that may fail, on a state, and Calls/Returns what is known of what they return.
--   * Client/Types: operator/internal/proxysqlclient/types.go, a record for each struct.
--   * Client/Quote: sync.go (same directory), the helpers quote, stripControl, defaultInt32, nullable*
--     and def*, and the rows of an INSERT. Client/Literals is the lexical rules of the admin port's SQL,
--     written as a reader. Quote/Laws and Quote/Rows hold the round trips.
--   * Client/Executor: the interface Executor of sync.go, a state and a function on it that may fail.
--   * Client/Sync: sync.go, Sync, SyncWithAWSDBProxy and a function for each sync* section;
--     Sync/Columns has the rows of each section, Sync/Variables has syncVariables, loadSave, ReloadTLS
--     and syncSQLStatements. Sync/Values says which values each row is to hold, and Sync/Isolation is
--     about errors. Client/Port has what the code relies on of the admin port, which is a parameter:
--     its documented statements, an INSERT with the columns that it names, on the rows that stand in
--     memory, that were last loaded to the runtime, and that were last saved. Which rows a table takes
--     is the port's. Sync/Convergence and its child are about a push to it.
--   * Client/Redact: client.go, snippet and redactQuotedLiterals; Redact/Laws and Redact/Secrets.
--   * Client/Union: union.go; Union/Keyed is about one section, Union/Laws about all of them.
--   * Client/Runtime: runtime.go, RuntimeState, ReadRuntime, ReadGlobalVariables and ShunnedCount;
--     Runtime/Native has NativeRuntimeWithAWSDBProxy, which the drift check uses beside an AWS plugin,
--     and NativeRuntime, which only tests call.
--   * Client/Classes: runtime.go, replicationClasses. Classes/Forest has the invariant of the parents'
--     map and the termination of find, Classes/Merge one round, Classes/Spec all rounds, and
--     Classes/Correct what the classes are.
--   * Client/Drift: runtime.go, Drift and the diff* functions; Drift/Keys has the keys of servers, users
--     and rules, Drift/Canon what the canonical keys identify, Drift/Agreement what an empty report says.
--   * Restart/Cnf: operator/internal/controller/builders/cnf_variables.go, scanCnf, ParseCnfVariables and
--     NormalizeCnf; Restart/Cnf/Lines has the splitting into lines and the regular expressions, and the
--     files called Laws below are about both.
--   * Restart/Verdict: operator/internal/controller/restart_checksum.go, classifyCnfChange and what it
--     calls; Verdict/Laws is about the keys that differ, Verdict/Structural about the verdict.
--     Restart/Resolve has resolveRestartChecksum over pods that are a state with calls that may fail,
--     and Resolve/Markers what it writes down.
--   * Report: the texts of status conditions, joinTrunc and joinErrs of
--     operator/internal/controller/proxysqlconfig_controller.go and mergeSummaries of tls_rotation.go
--     (same directory).
--   * Discovery: operator/internal/controller/pod_discovery.go.
--   * Rotation: operator/internal/controller/tls_rotation.go. Rotation/State has the verdict, the digest
--     of the Secret and the annotation of an open window; Rotation/Reload has reloadAndVerifyTLS, the
--     pinned verification of certificates and the probe; Rotation/Resolve has resolveTLSRotation, and
--     below it Marker, Window and Start are about the marker of the served content, the end of a window
--     and its start; Rotation/Cleanup has resolveTLSCleanup.
--   * Api: operator/api/v1alpha1/proxysqlconfig_types.go, the spec of a ProxySQLConfig.
--   * Cluster: operator/internal/controller/proxysqlcluster_controller.go. Cluster/Phase has derivePhase
--     and externalEndpoint, Cluster/Status updateStatus and the conditions that it sets;
--     Cluster/Variables has mergedCnfVars of builders/proxysql_cnf.go (same directory).
--   * Config: operator/internal/controller/proxysqlconfig_controller.go and rds_reconcile.go.
--     Config/Desired has configToDesired, Config/Union buildUnionedDesired and the cluster's own peers
--     (ProxySQLServerDNS of builders/proxysql_cnf.go), Config/Replica observeReplica, applyReplica and
--     summarizeReplicas, Config/Reconcile reconcileReadyReplicas, and Config/Finalize finalize; the
--     files called Laws below are about each, and Union/Order about the order of the list.
--   * Tests and below: the code on concrete configurations, and each result applied to one.
--     Tests/Instance is an admin port that can be run.
--
-- Choices. A Go string is the list of its bytes and is taken to be valid UTF-8, as the Kubernetes
-- API hands it out, so the characters that the code looks at are single bytes. A password is a
-- Secret's bytes, which need not be UTF-8: where one that is not also holds a control character,
-- stripControl puts U+FFFD for its invalid bytes, and the model does not. A nil slice or map is an
-- empty one, a nil pointer is none. Go leaves the order of a map open; the model ranges in the
-- order of insertion, and the code sorts what it collects. sort.Slice is a stable insertion sort,
-- one of the orders that Go permits for equal keys. The code prints, parses and compares int32
-- values and computes nothing with them, so they are integers, and a range stands as a hypothesis
-- where one is needed. fmt.Errorf is concatenation. Contexts are left out. SHA-256 is a parameter,
-- an arbitrary function on texts, so nothing rests on digests being different unless a result says
-- so. A time is a number of nanoseconds; RFC 3339 texts are made and read by a parameter, and so
-- are PEM, x509 and %q. The clock may be read at any state, and a hypothesis says what it shows
-- where a result needs that. A replica's answers are arbitrary: the certificates that a handshake
-- shows and the error of a call are whatever the parameter returns. The list of status conditions
-- is apimachinery's, with what its functions are documented to do.
--
-- Fuel. The digits of a number have the number itself as fuel, and each round divides by ten. find has
-- one round more than the map of parents has entries: parents get smaller along a path, so no path is
-- longer (Classes/Forest). The reader of rows has as many rounds as the text has characters, and every
-- row takes at least one.
--
-- Not modelled: dialling, Exec, Query, Ping and Close of client.go, which only call the database driver;
-- the reconciler of ProxySQLCluster but for its status, and the frame of that of ProxySQLConfig, which
-- are mostly calls of the Kubernetes API; logging; the JSON text behind the digest of a push, which is
-- given; the TLS settings of adminDialTLS, which resolveRestartChecksum takes as a call that may fail,
-- as it does the list of addresses; the builders of Kubernetes objects; the API types of operator/api
-- but for those named above; the AWS and RDS packages; cmd; the charts and the scripts.
pub mod Base
pub mod Client
pub mod Restart
pub mod Report
pub mod Discovery
pub mod Rotation
pub mod Api
pub mod Cluster
pub mod Config
mod Tests
