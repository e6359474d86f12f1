-- ===== src/Client/Executor.antt =====
-- operator/internal/proxysqlclient/sync.go, `Executor`: what Sync needs of an admin connection. The
-- connection and the server behind it are not part of the repository's code that is modelled; they
-- are a state and a function on it that may fail with an error's text.
use proxysql_on_k8s.Base.Calls.{Action}
use proxysql_on_k8s.Base.Text.{Text}

pub record Executor : Type 1 where
  pub State : Type 0
  pub exec : Text → Action State
