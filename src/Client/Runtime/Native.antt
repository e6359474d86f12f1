-- ===== src/Client/Runtime/Native.antt =====
-- runtime.go: what the native configuration owns beside an AWS plugin. A nil pointer is `none`. Of
-- the two views, NativeRuntime is exported and only tests call it; the drift check of
-- rds_reconcile.go takes NativeRuntimeWithAWSDBProxy.
use proxysql_on_k8s.Base.{
  Bool, false, not, ◌&&◌, List, [], ◌∷◌, Option, none, some, text_eq, map, if◌then◌else◌,
}
use proxysql_on_k8s.Base.Int.{ℤ, int_eq}
use proxysql_on_k8s.Base.Dict.{Dict, keys, insert, erase, copy, is_set, set_all}
use proxysql_on_k8s.Base.Text.{Text, cut}
use proxysql_on_k8s.Base.Text.Decimal.{parse_int32}
use proxysql_on_k8s.Client.Types.{Desired, MySqlUser}
use proxysql_on_k8s.Client.Runtime.{RuntimeState}

-- `copyStringMap`, `copyBoolMap` and `copyInt32Map`
unfoldable pub copy_map : {V : Type 0} → Dict Text V → Dict Text V
unfolding copy insert text_eq
copy_map source = copy [] source

-- The hostgroup in front of a key's first `:`, where the colon is not the first character.
unfoldable pub key_hostgroup : Text → Option ℤ
unfolding cut parse_int32
key_hostgroup key = elim (cut b':' key) [
  | none ↦ none
  | some ([], tail) ↦ none
  | some (c ∷ head, tail) ↦ parse_int32 (c ∷ head)
]

unfoldable pub is_claimed : Dict ℤ Bool → Option ℤ → Bool
unfolding is_set int_eq
is_claimed claimed none = false
is_claimed claimed (some hg) = is_set hg claimed

-- The loop over the servers' keys, which deletes from the map.
unfoldable pub drop_claimed_servers : Dict ℤ Bool → List Text → Dict Text Text → Dict Text Text
unfolding key_hostgroup is_claimed erase text_eq
drop_claimed_servers claimed [] m = m
drop_claimed_servers claimed (key ∷ ks) m =
    drop_claimed_servers claimed ks
      (if is_claimed claimed (key_hostgroup key) then erase key m else m)

abbrev pub usernames : List MySqlUser → List Text
usernames = map (λ u. u.username)

-- The loop over the users' hostgroups, which deletes from two maps. It ranges over entries that it
-- took before it deletes any.
unfoldable pub drop_claimed_users :
    Dict Text Bool
    → Dict ℤ Bool
    → Dict Text ℤ
    → Dict Text Bool
    → Dict Text ℤ
    → Dict Text Bool × Dict Text ℤ
unfolding is_set is_claimed erase text_eq
drop_claimed_users native claimed [] users hostgroups = (users, hostgroups)
drop_claimed_users native claimed ((name, hg) ∷ rest) users hostgroups =
    let owned = not (is_set name native) && is_claimed claimed (some hg) in
    drop_claimed_users native claimed rest (if owned then erase name users else users)
      (if owned then erase name hostgroups else hostgroups)

abbrev pub filter_claimed : RuntimeState → Desired → Dict ℤ Bool → RuntimeState
filter_claimed rs desired claimed =
    let servers = copy_map rs.mysql_servers in
    let hostgroups = copy_map rs.mysql_user_hostgroups in
    let native = set_all (usernames desired.mysql_users) [] in
    let kept = drop_claimed_users native claimed hostgroups (copy_map rs.mysql_users) hostgroups in
    record {
      mysql_servers = drop_claimed_servers claimed (keys servers) servers;
      mysql_users = kept.0;
      mysql_user_hostgroups = kept.1;
      mysql_rules = copy_map rs.mysql_rules;
      pgsql_servers = copy_map rs.pgsql_servers;
      pgsql_users = copy_map rs.pgsql_users;
      pgsql_rules = copy_map rs.pgsql_rules;
    }

unfoldable pub native_runtime : Option RuntimeState → Desired → Dict ℤ Bool → Option RuntimeState
native_runtime none desired claimed = none
native_runtime (some rs) desired [] = some rs
native_runtime (some rs) desired (c ∷ claimed) = some (filter_claimed rs desired (c ∷ claimed))

unfoldable pub native_runtime_with_aws_db_proxy : Option RuntimeState → Option RuntimeState
unfolding copy_map
native_runtime_with_aws_db_proxy none = none
native_runtime_with_aws_db_proxy (some rs) = some (record {
  mysql_servers = [];
  mysql_users = [];
  mysql_user_hostgroups = [];
  mysql_rules = copy_map rs.mysql_rules;
  pgsql_servers = copy_map rs.pgsql_servers;
  pgsql_users = copy_map rs.pgsql_users;
  pgsql_rules = copy_map rs.pgsql_rules;
})

unfoldable pub native_desired_with_aws_db_proxy : Option Desired → Option Desired
native_desired_with_aws_db_proxy none = none
native_desired_with_aws_db_proxy (some d) = some (record d {
  mysql_servers = [];
  mysql_users = [];
  mysql_replication_hostgroups = [];
  mysql_hostgroup_attributes = [];
})
