-- ===== src/Tests/Hostgroups.antt =====
-- Replication classes and the keys that they give to servers.
use proxysql_on_k8s.Base.{◌≡◌, ◌≢◌, ◌↔◌, refl, [], inl, inr, false, ◌++◌, some, none, arith}
use proxysql_on_k8s.Base.Int.{ℤ, pos, ltb_ℤ, int_eq}
use proxysql_on_k8s.Base.Text.{codes}
use proxysql_on_k8s.Base.Text.Decimal.{format_int}
use proxysql_on_k8s.Base.Dict.{lookup, keys, insert}
use proxysql_on_k8s.Client.Classes.{replication_classes, link, find, find_root, link_all}
use proxysql_on_k8s.Client.Classes.Spec.{
  IsCovered, Connected, representative, initial, link_all-Represents,
}
use proxysql_on_k8s.Client.Classes.Forest.{Found, find_root_lem}
use proxysql_on_k8s.Client.Classes.Correct.{
  replication_classes_same, replication_classes_smallest, replication_classes-IsCovered,
}
use proxysql_on_k8s.Client.Drift.Keys.{canon_server_key, runtime_canon}
use proxysql_on_k8s.Client.Drift.Canon.{canon_server_key_same, runtime_canon_lem}
use proxysql_on_k8s.Tests.Data.{pairs}

class_of_30 : lookup (pos 30) (replication_classes pairs) ≡ some (pos 10)
unfolding replication_classes lookup int_eq keys link find insert
class_of_30 = refl

find_root_lem_example :
    Found
      (link_all pairs [])
      (representative pairs)
      (pos 30)
      (find_root (pos 30) (link_all pairs [])).0
      (find_root (pos 30) (link_all pairs [])).1
find_root_lem_example =
    find_root_lem (representative pairs) (pos 30) (link_all pairs [])
      (unfold representative in link_all-Represents pairs [] (λ y. y) initial)

replication_classes_same_example :
    (lookup (pos 30) (replication_classes pairs) ≡ lookup (pos 10) (replication_classes pairs))
    ↔ Connected pairs (pos 30) (pos 10)
replication_classes_same_example =
    replication_classes_same pairs (pos 30) (pos 10) (inl (inl refl)) (inr (inl (inr refl)))

replication_classes_smallest_example :
    Connected pairs (pos 30) (pos 10)
    × ((z : ℤ) → Connected pairs (pos 30) z → ltb_ℤ z (pos 10) ≡ false)
replication_classes_smallest_example =
    replication_classes_smallest pairs (pos 30) (pos 10) class_of_30

replication_classes-IsCovered_example :
    (lookup (pos 6) (replication_classes pairs) ≢ none) ↔ IsCovered pairs (pos 6)
replication_classes-IsCovered_example = replication_classes-IsCovered pairs (pos 6)

canon_server_key_same_example :
    (canon_server_key (pos 30) (codes "db:1") (replication_classes pairs)
      ≡ canon_server_key (pos 10) (codes "db:1") (replication_classes pairs))
    ↔ ((codes "db:1" ≡ codes "db:1") × Connected pairs (pos 30) (pos 10))
canon_server_key_same_example =
    canon_server_key_same pairs (pos 30) (pos 10) (codes "db:1") (codes "db:1")

runtime_canon_lem_example :
    runtime_canon (replication_classes pairs) (format_int (pos 30) ++ codes ":db:1")
    ≡ canon_server_key (pos 30) (codes "db:1") (replication_classes pairs)
runtime_canon_lem_example =
    runtime_canon_lem (pos 30) (codes "db:1") (replication_classes pairs) (omega arith)
