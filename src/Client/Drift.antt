-- ===== src/Client/Drift.antt =====
-- runtime.go: the comparison of what is desired with what an instance runs.
pub mod Keys
pub mod Canon
pub mod Agreement
use proxysql_on_k8s.Base.{
  ℕ, Bool, true, false, not, ◌&&◌, ◌||◌, List, [], ◌∷◌, ◌++◌, Option, none, some, ◌==◌, text_eq,
  map, contains, if◌then◌else◌,
}
use proxysql_on_k8s.Base.Int.{ℤ, int_eq}
use proxysql_on_k8s.Base.Dict.{Dict, keys, lookup, insert, is_set}
use proxysql_on_k8s.Base.Sort.{sort}
use proxysql_on_k8s.Base.Text.{Text, codes, join, text_ltb}
use proxysql_on_k8s.Client.Types.{
  Desired, MySqlUser, PostgreSqlUser, MySqlQueryRule, PostgreSqlQueryRule,
}
use proxysql_on_k8s.Client.Classes.{replication_classes}
use proxysql_on_k8s.Client.Runtime.{RuntimeState}
use Keys.{
  mysql_server_keys, pgsql_server_keys, runtime_server_statuses, mysql_desired_statuses, user_keys,
  rule_keys, status_offline_soft, status_offline_hard,
}

-- `range want` and `range have` of `diffKeys`; a key is reported for what the other map reads at it.
unfoldable pub missing_keys : Text → Dict Text Bool → List Text → List Text
unfolding is_set
missing_keys table have [] = []
missing_keys table have (k ∷ ks) =
    let rest = missing_keys table have ks in
    if is_set k have then rest else (table ++ (codes ": missing " ++ k)) ∷ rest

unfoldable pub extra_keys : Text → Dict Text Bool → List Text → List Text
unfolding is_set
extra_keys table want [] = []
extra_keys table want (k ∷ ks) =
    let rest = extra_keys table want ks in
    if is_set k want then rest else (table ++ (codes ": extra " ++ k)) ∷ rest

unfoldable pub diff_keys : Text → Dict Text Bool → Dict Text Bool → List Text
unfolding missing_keys extra_keys keys
diff_keys table want have = missing_keys table have (keys want) ++ extra_keys table want (keys have)

-- `if _, ok := m[k]; ok`
abbrev pub has : {V : Type 0} → Text → Dict Text V → Bool
has k m = elim (lookup k m) [ some v ↦ true | none ↦ false ]

-- The entries of a map whose key the other lacks, as a message about the display key.
unfoldable pub absent_servers : Text → Dict Text Text → Dict Text Text → List Text
unfolding lookup
absent_servers message other [] = []
absent_servers message other ((canon, display) ∷ m) =
    let rest = absent_servers message other m in
    if has canon other then rest else (message ++ display) ∷ rest

unfoldable pub diff_servers : Text → Dict Text Text → Dict Text Text → Dict Text Text → List Text
unfolding absent_servers
diff_servers table want have known =
    absent_servers (table ++ codes ": missing ") have want
    ++ absent_servers (table ++ codes ": extra ") known have

-- The rows of a canonical key, if there are any.
abbrev pub rows_of : Text → Dict Text (List Text) → List Text
rows_of canon have = elim (lookup canon have) [ some got ↦ got | none ↦ [] ]

-- Whether a wanted OFFLINE_* status is in order, by the two cases of `mysqlStatusDrift`.
unfoldable pub status_converged : Text → Option (List Text) → Bool
unfolding text_eq
status_converged status none = status == status_offline_soft || status == status_offline_hard
status_converged status (some got) =
    status == status_offline_soft && contains got status_offline_soft

-- `m[k]`, where a missing key reads as the empty text.
abbrev pub text_at : Text → Dict Text Text → Text
text_at canon display = elim (lookup canon display) [ some d ↦ d | none ↦ [] ]

unfoldable pub mysql_status_drift :
    Dict Text Text → Dict Text Text → Dict Text (List Text) → List Text
unfolding status_converged lookup
mysql_status_drift display [] have = []
mysql_status_drift display ((canon, status) ∷ want) have =
    let rest = mysql_status_drift display want have in
    if status_converged status (lookup canon have)
    then rest
    else (codes "mysql_servers: status "
        ++ (text_at canon display
            ++ (codes " want "
                ++ (status ++ (codes " have " ++ join (codes ",") (rows_of canon have))))))
      ∷ rest

-- The servers that must be present: all but those whose status is to be OFFLINE_HARD.
unfoldable pub membership : Dict Text Text → Dict Text Text → Dict Text Text
unfolding lookup insert text_eq
membership statuses [] = []
membership statuses ((canon, display) ∷ want) =
    let rest = membership statuses want in
    if text_at canon statuses == status_offline_hard then rest else (canon, display) ∷ rest

abbrev pub mysql_usernames : List MySqlUser → List Text
mysql_usernames = map (λ u. u.username)

abbrev pub pgsql_usernames : List PostgreSqlUser → List Text
pgsql_usernames = map (λ u. u.username)

abbrev pub mysql_rule_ids : List MySqlQueryRule → List ℤ
mysql_rule_ids = map (λ r. r.rule_id)

abbrev pub pgsql_rule_ids : List PostgreSqlQueryRule → List ℤ
pgsql_rule_ids = map (λ r. r.rule_id)

-- The differences in the order in which `Drift` collects them.
unfoldable pub differences : Desired → RuntimeState → List Text
unfolding diff_servers mysql_status_drift membership diff_keys
differences d rs =
    let classes = replication_classes d.mysql_replication_hostgroups in
    let want_servers = mysql_server_keys d.mysql_servers classes in
    let have = runtime_server_statuses rs.mysql_servers classes in
    let want_status = mysql_desired_statuses d.mysql_servers classes in
    let pg_want = pgsql_server_keys d.pgsql_servers in
    diff_servers (codes "mysql_servers") (membership want_status want_servers) have.0 want_servers
    ++ (mysql_status_drift want_servers want_status have.1
        ++ (diff_keys (codes "mysql_users") (user_keys (mysql_usernames d.mysql_users))
              rs.mysql_users
            ++ (diff_keys (codes "mysql_query_rules")
                  (rule_keys (mysql_rule_ids d.mysql_query_rules)) rs.mysql_rules
                ++ (diff_servers (codes "pgsql_servers") pg_want
                      (runtime_server_statuses rs.pgsql_servers []).0 pg_want
                    ++ (diff_keys (codes "pgsql_users") (user_keys (pgsql_usernames d.pgsql_users))
                          rs.pgsql_users
                        ++ diff_keys (codes "pgsql_query_rules")
                            (rule_keys (pgsql_rule_ids d.pgsql_query_rules)) rs.pgsql_rules)))))

unfoldable pub drift : Desired → RuntimeState → List Text
unfolding differences
drift d rs = sort text_ltb (differences d rs)
