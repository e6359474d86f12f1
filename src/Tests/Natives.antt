-- ===== src/Tests/Natives.antt =====
-- What the drift check reports.
use proxysql_on_k8s.Base.{true, [], ◌∷◌, text_eq}
use proxysql_on_k8s.Base.Int.{pos, int_eq}
use proxysql_on_k8s.Base.Text.{codes}
use proxysql_on_k8s.Client.Runtime.{RuntimeState, empty_runtime}

abbrev running : RuntimeState
running = record empty_runtime {
  mysql_servers =
      (codes "20:db1:3306", codes "ONLINE") ∷ (codes "10:db2:3306", codes "SHUNNED") ∷ [];
  mysql_users = (codes "app", true) ∷ (codes "aws", true) ∷ [];
  mysql_user_hostgroups = (codes "app", pos 20) ∷ (codes "aws", pos 20) ∷ [];
}
