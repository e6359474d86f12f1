-- ===== src/Client/Classes.antt =====
-- operator/internal/proxysqlclient/runtime.go, `replicationClasses`: a union-find over the hostgroups
-- of mysql_replication_hostgroups. The map `parent` is passed along, since `find` shortens its paths.
pub mod Forest
pub mod Merge
pub mod Spec
pub mod Correct
use proxysql_on_k8s.Base.{
  ℕ, zero, suc, ◌+◌, Bool, true, false, List, [], ◌∷◌, Option, none, some, length, ◌==◌,
  if◌then◌else◌,
}
use proxysql_on_k8s.Base.Int.{ℤ, ltb_ℤ, int_eq}
use proxysql_on_k8s.Base.Dict.{Dict, keys, lookup, insert}
use proxysql_on_k8s.Client.Types.{MySqlReplicationHostgroup}

abbrev pub Parents : Type 0
Parents = Dict ℤ ℤ

-- The closure `find`. Its recursion follows the parents, which get smaller; the fuel bounds their
-- number, and `find_lem` shows that it is enough.
unfoldable pub find : ℕ → ℤ → Parents → ℤ × Parents
find zero x parent = (x, parent)
find (suc fuel) x parent = elim (lookup x parent) [
  | none ↦ (x, insert x x parent)
  | some p ↦
      let (root, parent') = find fuel p parent in
      if p == x then (x, parent) else (root, insert x root parent')
]

-- A root is found within as many rounds as the map has entries, and one.
abbrev pub find_root : ℤ → Parents → ℤ × Parents
find_root x parent = find (suc (length parent)) x parent

-- One round of the loop over the pairs.
unfoldable pub link : MySqlReplicationHostgroup → Parents → Parents
link p parent =
    let (rw, parent₁) = find_root p.writer_hostgroup parent in
    let (rr, parent₂) = find_root p.reader_hostgroup parent₁ in
    if rw == rr then parent₂ else if ltb_ℤ rr rw then insert rw rr parent₂ else insert rr rw parent₂

unfoldable pub link_all : List MySqlReplicationHostgroup → Parents → Parents
link_all [] parent = parent
link_all (p ∷ pairs) parent = link_all pairs (link p parent)

-- The loop over `parent` that fills `classes`.
unfoldable pub collect : List ℤ → Parents → Dict ℤ ℤ → Dict ℤ ℤ
collect [] parent classes = classes
collect (hg ∷ hgs) parent classes =
    let (root, parent') = find_root hg parent in collect hgs parent' (insert hg root classes)

-- A nil map is the empty one.
unfoldable pub replication_classes : List MySqlReplicationHostgroup → Dict ℤ ℤ
unfolding link_all collect
replication_classes [] = []
replication_classes (p ∷ pairs) =
    let parent = link_all (p ∷ pairs) [] in collect (keys parent) parent []
