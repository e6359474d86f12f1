-- ===== src/Client/Runtime.antt =====
-- operator/internal/proxysqlclient/runtime.go: a snapshot of what an instance runs.
pub mod Native
use proxysql_on_k8s.Base.{
  ℕ, ◌+◌, Bool, true, false, List, [], ◌∷◌, ◌++◌, map, Option, none, some, ◌==◌, text_eq,
  if◌then◌else◌,
}
use proxysql_on_k8s.Base.Calls.{Result, ok, failed, Reader, ◌>>=◌, give}
use proxysql_on_k8s.Base.Int.{ℤ, pos}
use proxysql_on_k8s.Base.Dict.{Dict, insert}
use proxysql_on_k8s.Base.Text.{Text, codes, join, text_ltb}
use proxysql_on_k8s.Client.Quote.{quote}
use proxysql_on_k8s.Base.Text.Decimal.{parse_int32}
use proxysql_on_k8s.Base.Sort.{sort}

-- Keys only. The server maps go from "hostgroup:hostname:port" to the runtime status.
pub record RuntimeState : Type 0 where
  pub mysql_servers : Dict Text Text
  pub mysql_users : Dict Text Bool
  pub mysql_user_hostgroups : Dict Text ℤ
  pub mysql_rules : Dict Text Bool
  pub pgsql_servers : Dict Text Text
  pub pgsql_users : Dict Text Bool
  pub pgsql_rules : Dict Text Bool

abbrev pub empty_runtime : RuntimeState
empty_runtime = record {
  mysql_servers = [];
  mysql_users = [];
  mysql_user_hostgroups = [];
  mysql_rules = [];
  pgsql_servers = [];
  pgsql_users = [];
  pgsql_rules = [];
}

-- `Querier`: the admin connection, as a state that a query may change.
pub record Querier : Type 1 where
  pub State : Type 0
  pub query : Text → State → State × Result (List (List Text))

-- `dst[r[0]+":"+r[1]+":"+r[2]] = r[3]` for the rows that have four columns.
unfoldable pub put_server : Dict Text Text → List Text → Dict Text Text
unfolding insert text_eq
put_server dst (hg ∷ host ∷ port ∷ status ∷ more) =
    insert (hg ++ (codes ":" ++ (host ++ (codes ":" ++ port)))) status dst
put_server dst short = dst

unfoldable pub put_servers : Dict Text Text → List (List Text) → Dict Text Text
unfolding put_server
put_servers dst [] = dst
put_servers dst (r ∷ rs) = put_servers (put_server dst r) rs

-- `dst[r[0]] = true` for the rows that have a column.
unfoldable pub put_key : Dict Text Bool → List Text → Dict Text Bool
unfolding insert text_eq
put_key dst [] = dst
put_key dst (k ∷ more) = insert k true dst

unfoldable pub put_keys : Dict Text Bool → List (List Text) → Dict Text Bool
unfolding put_key
put_keys dst [] = dst
put_keys dst (r ∷ rs) = put_keys (put_key dst r) rs

-- `strconv.ParseInt` may fail, and then the hostgroup is left out.
unfoldable pub put_hostgroup : Dict Text ℤ → List Text → Dict Text ℤ
unfolding insert text_eq parse_int32
put_hostgroup dst (user ∷ hg ∷ more) = elim (parse_int32 hg) [
  | some z ↦ insert user z dst
  | none ↦ dst
]
put_hostgroup dst short = dst

unfoldable pub put_hostgroups : Dict Text ℤ → List (List Text) → Dict Text ℤ
unfolding put_hostgroup
put_hostgroups dst [] = dst
put_hostgroups dst (r ∷ rs) = put_hostgroups (put_hostgroup dst r) rs

-- `result[row[0]] = row[1]` for the rows that have two columns.
unfoldable pub put_variable_rows : Dict Text Text → List (List Text) → Dict Text Text
put_variable_rows dst [] = dst
put_variable_rows dst ((name ∷ value ∷ more) ∷ rs) = put_variable_rows (insert name value dst) rs
put_variable_rows dst ((name ∷ []) ∷ rs) = put_variable_rows dst rs
put_variable_rows dst ([] ∷ rs) = put_variable_rows dst rs

abbrev pub variables_query : List Text → Text
variables_query names =
    codes
      "SELECT variable_name, variable_value FROM runtime_global_variables WHERE variable_name IN ("
    ++ (join (codes ",") (map quote (sort text_ltb names)) ++ codes ")")

module _ (Q : Querier) where
  open Q use {State, query}

  unfoldable pub read_servers : Text → Dict Text Text → Reader State (Dict Text Text)
  unfolding put_servers
  read_servers table dst = do
    rs ← query (codes "SELECT hostgroup_id, hostname, port, status FROM " ++ table)
    give (put_servers dst rs)

  unfoldable pub read_keys : Text → Dict Text Bool → Reader State (Dict Text Bool)
  unfolding put_keys
  read_keys q dst = do rs ← query q; give (put_keys dst rs)

  unfoldable pub read_mysql_users :
      Dict Text Bool → Dict Text ℤ → Reader State (Dict Text Bool × Dict Text ℤ)
  unfolding put_keys put_hostgroups
  read_mysql_users users hostgroups = do
    rs ← query (codes "SELECT DISTINCT username, default_hostgroup FROM runtime_mysql_users")
    give (put_keys users rs, put_hostgroups hostgroups rs)

  unfoldable pub read_runtime : Reader State RuntimeState
  unfolding read_servers read_keys read_mysql_users
  read_runtime = do
    mysql_servers ← read_servers (codes "runtime_mysql_servers") []
    users ← read_mysql_users [] []
    mysql_rules ← read_keys (codes "SELECT rule_id FROM runtime_mysql_query_rules") []
    pgsql_servers ← read_servers (codes "runtime_pgsql_servers") []
    pgsql_users ← read_keys (codes "SELECT DISTINCT username FROM runtime_pgsql_users") []
    pgsql_rules ← read_keys (codes "SELECT rule_id FROM runtime_pgsql_query_rules") []
    give (record {
      mysql_servers = mysql_servers;
      mysql_users = users.0;
      mysql_user_hostgroups = users.1;
      mysql_rules = mysql_rules;
      pgsql_servers = pgsql_servers;
      pgsql_users = pgsql_users;
      pgsql_rules = pgsql_rules;
    })

  unfoldable pub read_global_variables : List Text → Reader State (Dict Text Text)
  read_global_variables [] = give []
  read_global_variables (name ∷ names) = do
    rs ← query (variables_query (name ∷ names))
    give (put_variable_rows [] rs)

-- The count of SHUNNED servers in one map.
unfoldable pub shunned : Dict Text Text → ℕ
unfolding text_eq
shunned [] = 0
shunned ((k, status) ∷ m) = if status == codes "SHUNNED" then ℕ.suc (shunned m) else shunned m

-- `ShunnedCount`, whose int32 counter wraps only past 2^31 servers.
unfoldable pub shunned_count : RuntimeState → ℕ
unfolding shunned
shunned_count rs = shunned rs.mysql_servers + shunned rs.pgsql_servers
