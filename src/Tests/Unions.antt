-- ===== src/Tests/Unions.antt =====
-- The union of two configurations, with a nil one between them.
use proxysql_on_k8s.Base.Dict.{keys, insert, lookup}
use proxysql_on_k8s.Base.Sort.{sort}
use proxysql_on_k8s.Base.{◌≡◌, refl, List, [], ◌∷◌, Option, none, some, map, text_eq}
use proxysql_on_k8s.Base.Int.{ltb_ℤ, int_eq}
use proxysql_on_k8s.Base.Text.{text_ltb, codes}
use proxysql_on_k8s.Client.Types.{Desired}
use proxysql_on_k8s.Client.Union.{
  union, mysql_server_key, pgsql_server_key, peer_key, flatten_all, merge_all, merge_one,
}
use proxysql_on_k8s.Client.Union.Keyed.{IsAscending}
use proxysql_on_k8s.Client.Union.Laws.{LastWins, union-LastWins, union-IsAscending}
use proxysql_on_k8s.Tests.Data.{web, shop, app_user}

abbrev both : List (Option Desired)
both = some web ∷ none ∷ some shop ∷ []

later_user_wins : (union both).mysql_users ≡ app_user (codes "other") ∷ []
unfolding union text_eq text_ltb flatten_all sort keys merge_all merge_one insert lookup
later_user_wins = refl

union-LastWins_example :
    LastWins mysql_server_key (λ d. d.mysql_servers) both
    × LastWins (λ u. u.username) (λ d. d.mysql_users) both
    × LastWins (λ r. r.rule_id) (λ d. d.mysql_query_rules) both
    × LastWins (λ h. h.writer_hostgroup) (λ d. d.mysql_replication_hostgroups) both
    × LastWins (λ a. a.hostgroup) (λ d. d.mysql_hostgroup_attributes) both
    × LastWins pgsql_server_key (λ d. d.pgsql_servers) both
    × LastWins (λ u. u.username) (λ d. d.pgsql_users) both
    × LastWins (λ r. r.rule_id) (λ d. d.pgsql_query_rules) both
    × LastWins peer_key (λ d. d.proxysql_servers) both
union-LastWins_example = union-LastWins both

union-IsAscending_example :
    IsAscending text_ltb (map mysql_server_key (union both).mysql_servers)
    × IsAscending text_ltb (map (λ u. u.username) (union both).mysql_users)
    × IsAscending ltb_ℤ (map (λ r. r.rule_id) (union both).mysql_query_rules)
    × IsAscending ltb_ℤ (map (λ h. h.writer_hostgroup) (union both).mysql_replication_hostgroups)
    × IsAscending ltb_ℤ (map (λ a. a.hostgroup) (union both).mysql_hostgroup_attributes)
    × IsAscending text_ltb (map pgsql_server_key (union both).pgsql_servers)
    × IsAscending text_ltb (map (λ u. u.username) (union both).pgsql_users)
    × IsAscending ltb_ℤ (map (λ r. r.rule_id) (union both).pgsql_query_rules)
    × IsAscending text_ltb (map peer_key (union both).proxysql_servers)
union-IsAscending_example = union-IsAscending both
