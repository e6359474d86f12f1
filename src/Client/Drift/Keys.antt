-- ===== src/Client/Drift/Keys.antt =====
-- runtime.go, the key builders: a server is known by a canonical key, in which a hostgroup of a
-- replication class is named by its class, and shown by the key of a concrete row.
use proxysql_on_k8s.Base.{
  Bool, true, false, not, ◌||◌, List, [], ◌∷◌, ◌++◌, none, some, ◌==◌, text_eq, map, if◌then◌else◌,
}
use proxysql_on_k8s.Base.Int.{ℤ, pos, int_eq}
use proxysql_on_k8s.Base.Dict.{Dict, lookup, insert, erase, is_set, set_all}
use proxysql_on_k8s.Base.Sort.{sort}
use proxysql_on_k8s.Base.Text.{Text, codes, text_ltb, cut}
use proxysql_on_k8s.Base.Text.Decimal.{format_int, parse_int32}
use proxysql_on_k8s.Client.Types.{MySqlServer, PostgreSqlServer}
use proxysql_on_k8s.Client.Quote.{default_int32}

abbrev pub status_offline_soft : Text
status_offline_soft = codes "OFFLINE_SOFT"

abbrev pub status_offline_hard : Text
status_offline_hard = codes "OFFLINE_HARD"

unfoldable pub canon_server_key : ℤ → Text → Dict ℤ ℤ → Text
unfolding lookup int_eq
canon_server_key hg host_port classes = elim (lookup hg classes) [
  | some rep ↦ codes "rhg" ++ (format_int rep ++ (codes ":" ++ host_port))
  | none ↦ format_int hg ++ (codes ":" ++ host_port)
]

-- `fmt.Sprintf("%s:%d", s.Hostname, defaultInt32(s.Port, def))`
unfoldable pub host_port : Text → ℤ → ℤ → Text
unfolding default_int32
host_port hostname port def = hostname ++ (codes ":" ++ format_int (default_int32 port def))

-- `if prev, ok := keys[canon]; !ok || display < prev { keys[canon] = display }`
unfoldable pub put_smallest : Text → Text → Dict Text Text → Dict Text Text
unfolding lookup insert text_eq text_ltb
put_smallest canon display m = elim (lookup canon m) [
  | none ↦ insert canon display m
  | some prev ↦ if text_ltb display prev then insert canon display m else m
]

abbrev pub server_host_port : MySqlServer → Text
server_host_port s = host_port s.hostname s.port (pos 3306)

abbrev pub server_display : MySqlServer → Text
server_display s = format_int s.hostgroup ++ (codes ":" ++ server_host_port s)

abbrev pub server_canon : Dict ℤ ℤ → MySqlServer → Text
server_canon classes s = canon_server_key s.hostgroup (server_host_port s) classes

unfoldable pub put_server_keys : Dict ℤ ℤ → List MySqlServer → Dict Text Text → Dict Text Text
unfolding put_smallest canon_server_key host_port
put_server_keys classes [] m = m
put_server_keys classes (s ∷ ss) m =
    put_server_keys classes ss (put_smallest (server_canon classes s) (server_display s) m)

abbrev pub mysql_server_keys : List MySqlServer → Dict ℤ ℤ → Dict Text Text
mysql_server_keys servers classes = put_server_keys classes servers []

abbrev pub pgsql_server_key : PostgreSqlServer → Text
pgsql_server_key s = format_int s.hostgroup ++ (codes ":" ++ host_port s.hostname s.port (pos 5432))

unfoldable pub put_pgsql_keys : List PostgreSqlServer → Dict Text Text → Dict Text Text
unfolding insert text_eq host_port
put_pgsql_keys [] m = m
put_pgsql_keys (s ∷ ss) m = put_pgsql_keys ss (insert (pgsql_server_key s) (pgsql_server_key s) m)

abbrev pub pgsql_server_keys : List PostgreSqlServer → Dict Text Text
pgsql_server_keys servers = put_pgsql_keys servers []

-- The canonical form of a runtime key. Only the leading hostgroup is read; with no class, or where
-- that is no int32, the key stays as it is.
unfoldable pub runtime_canon : Dict ℤ ℤ → Text → Text
runtime_canon [] k = k
runtime_canon (c ∷ classes) k = elim (cut b':' k) [
  | none ↦ k
  | some ([], tail) ↦ k
  | some (d ∷ head, tail) ↦ elim (parse_int32 (d ∷ head)) [
    | none ↦ k
    | some hg ↦ canon_server_key hg tail (c ∷ classes)
  ]
]

-- `statuses[canon] = append(statuses[canon], status)`
unfoldable pub append_status : Text → Text → Dict Text (List Text) → Dict Text (List Text)
unfolding lookup insert text_eq
append_status canon status m = elim (lookup canon m) [
  | none ↦ insert canon (status ∷ []) m
  | some got ↦ insert canon (got ++ status ∷ []) m
]

unfoldable pub put_runtime :
    Dict ℤ ℤ
    → Dict Text Text
    → Dict Text Text
    → Dict Text (List Text)
    → Dict Text Text × Dict Text (List Text)
unfolding runtime_canon put_smallest append_status
put_runtime classes [] ks statuses = (ks, statuses)
put_runtime classes ((k, status) ∷ have) ks statuses =
    put_runtime classes have (put_smallest (runtime_canon classes k) k ks)
      (append_status (runtime_canon classes k) status statuses)

-- `for _, v := range statuses { sort.Strings(v) }`
unfoldable pub sort_values : Dict Text (List Text) → Dict Text (List Text)
unfolding sort text_ltb
sort_values [] = []
sort_values ((k, v) ∷ m) = (k, sort text_ltb v) ∷ sort_values m

abbrev pub runtime_server_statuses :
    Dict Text Text → Dict ℤ ℤ → Dict Text Text × Dict Text (List Text)
runtime_server_statuses have classes =
    let found = put_runtime classes have [] [] in (found.0, sort_values found.1)

unfoldable pub is_admin_offline : Text → Bool
unfolding text_eq
is_admin_offline status = status == status_offline_soft || status == status_offline_hard

-- The loop of `mysqlDesiredStatuses`, over the maps `want` and `mixed`.
unfoldable pub desired_statuses :
    Dict ℤ ℤ → List MySqlServer → Dict Text Text → Dict Text Bool → Dict Text Text
unfolding canon_server_key host_port is_set lookup insert erase text_eq is_admin_offline
desired_statuses classes [] want mixed = want
desired_statuses classes (s ∷ ss) want mixed =
    let canon = server_canon classes s in
    let disagrees : Bool = elim (lookup canon want) [
      | some prev ↦ not (prev == s.status)
      | none ↦ false
    ] in
    let out = not (is_admin_offline s.status) || disagrees in
    desired_statuses classes ss
      (if is_set canon mixed
        then want
        else if out
        then erase canon want
        else insert canon s.status want)
      (if is_set canon mixed then mixed else if out then insert canon true mixed else mixed)

abbrev pub mysql_desired_statuses : List MySqlServer → Dict ℤ ℤ → Dict Text Text
mysql_desired_statuses servers classes = desired_statuses classes servers [] []

-- `userKeys`, and `ruleKeys` by the printed id.
unfoldable pub user_keys : List Text → Dict Text Bool
unfolding set_all insert text_eq
user_keys names = set_all names []

unfoldable pub rule_keys : List ℤ → Dict Text Bool
unfolding set_all insert text_eq
rule_keys ids = set_all (map format_int ids) []
