-- ===== src/Client/Drift/Agreement.antt =====
-- What an empty drift report says of an instance.
use proxysql_on_k8s.Base.{
  ◌≡◌, ◌≢◌, ◌⊎◌, Bool, false, List, [], Option, none, some, map, contains, All, In, text_eq,
}
use proxysql_on_k8s.Base.Dict.{Dict, lookup, is_set}
use proxysql_on_k8s.Base.Text.{Text, codes}
use proxysql_on_k8s.Base.Text.Decimal.{format_int}
use proxysql_on_k8s.Client.Classes.{replication_classes}
use proxysql_on_k8s.Client.Drift.{mysql_usernames, pgsql_usernames, mysql_rule_ids, pgsql_rule_ids}
use proxysql_on_k8s.Client.Drift.Keys.{
  mysql_server_keys, pgsql_server_keys, runtime_server_statuses, mysql_desired_statuses,
}
use proxysql_on_k8s.Client.Runtime.{RuntimeState}
use proxysql_on_k8s.Client.Types.{Desired}

-- A map of a set's members, as the code builds them.
abbrev pub HasOnlyTrue : Dict Text Bool → Type 0
HasOnlyTrue m = (k : Text) → lookup k m ≢ some false

-- A wanted OFFLINE status is in order where nothing runs under the key, or where the status is
-- OFFLINE_SOFT and some row has it.
abbrev pub IsInOrder : Text → Option (List Text) → Type 0
IsInOrder status none = (status ≡ codes "OFFLINE_SOFT") ⊎ (status ≡ codes "OFFLINE_HARD")
IsInOrder status (some got) = (status ≡ codes "OFFLINE_SOFT") × In (codes "OFFLINE_SOFT") got

-- A key of the first map stands in the second.
abbrev pub AllHeld : Dict Text Text → Dict Text Text → Type 0
AllHeld m other = All (λ e. lookup e.0 other ≢ none) m

-- Every server stands among the rows, but for those whose wanted status is OFFLINE_HARD.
abbrev pub AllPresent : Dict Text Text → Dict Text Text → Dict Text Text → Type 0
AllPresent statuses want rows =
    All (λ e. (lookup e.0 statuses ≡ some (codes "OFFLINE_HARD")) ⊎ (lookup e.0 rows ≢ none)) want

-- A set has the members that a list names.
abbrev pub HasKeys : List Text → Dict Text Bool → Type 0
HasKeys names have = (k : Text) → contains names k ≡ is_set k have

-- The instance runs the servers that are to be present and no unknown ones, the wanted OFFLINE
-- statuses are in order, and its users and rules are the desired ones.
abbrev pub Agrees : Desired → RuntimeState → Type 0
Agrees d rs =
    let classes = replication_classes d.mysql_replication_hostgroups in
    let want = mysql_server_keys d.mysql_servers classes in
    let have = runtime_server_statuses rs.mysql_servers classes in
    let statuses = mysql_desired_statuses d.mysql_servers classes in
    let pg_want = pgsql_server_keys d.pgsql_servers in
    let pg_have = (runtime_server_statuses rs.pgsql_servers []).0 in
    (AllPresent statuses want have.0 × AllHeld have.0 want)
    × (All (λ e. IsInOrder e.1 (lookup e.0 have.1)) statuses
        × (HasKeys (mysql_usernames d.mysql_users) rs.mysql_users
            × (HasKeys (map format_int (mysql_rule_ids d.mysql_query_rules)) rs.mysql_rules
                × ((AllHeld pg_want pg_have × AllHeld pg_have pg_want)
                    × (HasKeys (pgsql_usernames d.pgsql_users) rs.pgsql_users
                        × HasKeys (map format_int (pgsql_rule_ids d.pgsql_query_rules))
                            rs.pgsql_rules)))))

-- The four sets that were read hold members only, as what is read into them does.
abbrev pub HasOnlyMembers : RuntimeState → Type 0
HasOnlyMembers rs =
    HasOnlyTrue rs.mysql_users
    × HasOnlyTrue rs.mysql_rules
    × HasOnlyTrue rs.pgsql_users
    × HasOnlyTrue rs.pgsql_rules
