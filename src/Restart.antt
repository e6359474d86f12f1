-- ===== src/Restart.antt =====
-- The parts of the controller that decide whether a change of the bootstrap configuration needs a
-- restart: the reading of proxysql.cnf, and the verdict.
pub mod Cnf
pub mod Verdict
pub mod Resolve
