-- ===== src/Tests/Data.antt =====
-- Configurations that the tests share.
use proxysql_on_k8s.Base.{true, false, List, [], ◌∷◌, none, some}
use proxysql_on_k8s.Base.Int.{ℤ, pos}
use proxysql_on_k8s.Base.Text.{Text, codes}
use proxysql_on_k8s.Client.Types.{
  Desired, MySqlServer, MySqlUser, MySqlReplicationHostgroup, empty_desired,
}
use proxysql_on_k8s.Client.Literals.{text}
use proxysql_on_k8s.Client.Port.{Configured, Tables}

abbrev pub db_server : ℤ → Text → MySqlServer
db_server hg host = record {
  hostgroup = hg;
  hostname = host;
  port = pos 0;
  weight = some (pos 5);
  max_connections = none;
  max_replication_lag = none;
  use_ssl = some true;
  status = [];
  comment = codes "it's";
}

abbrev pub app_user : Text → MySqlUser
app_user password = record {
  username = codes "app";
  password = password;
  default_hostgroup = pos 10;
  active = none;
  max_connections = none;
  use_ssl = none;
  default_schema = [];
  transaction_persistent = some false;
  comment = [];
}

abbrev pub pair_of : ℤ → ℤ → MySqlReplicationHostgroup
pair_of w r = record { writer_hostgroup = w; reader_hostgroup = r; check_type = []; comment = [] }

abbrev pub pairs : List MySqlReplicationHostgroup
pairs = pair_of (pos 30) (pos 20) ∷ pair_of (pos 20) (pos 10) ∷ pair_of (pos 5) (pos 6) ∷ []

abbrev pub web : Desired
web = record empty_desired {
  mysql_servers = db_server (pos 20) (codes "db1") ∷ db_server (pos 10) (codes "db2") ∷ [];
  mysql_users = app_user (codes "se'cret") ∷ [];
  mysql_replication_hostgroups = pairs;
  mysql_variables = (codes "mysql-b", codes "2") ∷ (codes "mysql-a", codes "1") ∷ [];
}

abbrev pub shop : Desired
shop = record empty_desired {
  mysql_servers = db_server (pos 10) (codes "db2") ∷ db_server (pos 1) (codes "db0") ∷ [];
  mysql_users = app_user (codes "other") ∷ [];
}

abbrev no_rows : Tables
no_rows t = []

-- An instance that was configured with a row of its own in every table.
abbrev pub stale : Configured
stale = record {
  memory = λ t. ((codes "comment", text (codes "old")) ∷ []) ∷ [];
  loaded = λ t. ((codes "comment", text (codes "old")) ∷ []) ∷ [];
  saved = no_rows;
}
