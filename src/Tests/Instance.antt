-- ===== src/Tests/Instance.antt =====
-- An admin port that can be run, with the documented behaviour: it reads the statements of sync.go
-- and takes any rows.
use proxysql_on_k8s.Base.Calls.{Action}
use proxysql_on_k8s.Base.{
  ◌≡◌, refl, ap, ◌∙◌, List, [], ◌∷◌, ◌++◌, Option, none, some, map, length, eqb, ◌==◌, text_eq,
  if◌then◌else◌,
}
use proxysql_on_k8s.Base.Text.{Text, codes, join}
use proxysql_on_k8s.Client.Literals.{Value, read_rows}
use proxysql_on_k8s.Client.Sync.Variables.{load_statement, save_statement, update_statement}
use proxysql_on_k8s.Client.Port.{
  TableName, AdminModule, title, tables_of, Row, Configured, columns, named, put, fill, load, save,
  delete_statement, insert_head, AdminPort, AdminPortLaws, mysql_servers,
  mysql_replication_hostgroups, mysql_hostgroup_attributes, mysql_users, mysql_query_rules,
  pgsql_servers, pgsql_users, pgsql_query_rules, proxysql_servers,
}

pub data Command : Type 0 where
  delete_from : TableName → Command
  insert_into : TableName → List (List Value) → Command
  load_tables : List TableName → Command
  save_tables : List TableName → Command
  set_variable : Command
  refused : Command

unfoldable strip_prefix : Text → Text → Option Text
strip_prefix [] s = some s
strip_prefix (c ∷ p) [] = none
strip_prefix (c ∷ p) (d ∷ s) = let rest = strip_prefix p s in if eqb c d then rest else none

-- What stands behind the first occurrence of a word.
unfoldable after : Text → Text → Option Text
unfolding strip_prefix
after w [] = none
after w (c ∷ s) = elim (strip_prefix w (c ∷ s)) [ some rest ↦ some rest | none ↦ after w s ]

unfoldable find {ℓ} : {A : Type ℓ} → Text → List (Text × A) → Option A
unfolding text_eq
find s [] = none
find s ((k, a) ∷ table) = if s == k then some a else find s table

abbrev table_names : List (Text × TableName)
table_names =
    (codes "mysql_servers", mysql_servers)
    ∷ (codes "mysql_replication_hostgroups", mysql_replication_hostgroups)
    ∷ (codes "mysql_hostgroup_attributes", mysql_hostgroup_attributes)
    ∷ (codes "mysql_users", mysql_users)
    ∷ (codes "mysql_query_rules", mysql_query_rules)
    ∷ (codes "pgsql_servers", pgsql_servers)
    ∷ (codes "pgsql_users", pgsql_users)
    ∷ (codes "pgsql_query_rules", pgsql_query_rules)
    ∷ (codes "proxysql_servers", proxysql_servers)
    ∷ []

-- The modules of the admin interface with their tables; a module's variables are no table.
abbrev admin_modules : Text → List (Text × List TableName)
admin_modules tail =
    (
      codes "MYSQL SERVERS" ++ tail,
      mysql_servers ∷ mysql_replication_hostgroups ∷ mysql_hostgroup_attributes ∷ [],
    )
    ∷ (codes "MYSQL USERS" ++ tail, mysql_users ∷ [])
    ∷ (codes "MYSQL QUERY RULES" ++ tail, mysql_query_rules ∷ [])
    ∷ (codes "PGSQL SERVERS" ++ tail, pgsql_servers ∷ [])
    ∷ (codes "PGSQL USERS" ++ tail, pgsql_users ∷ [])
    ∷ (codes "PGSQL QUERY RULES" ++ tail, pgsql_query_rules ∷ [])
    ∷ (codes "PROXYSQL SERVERS" ++ tail, proxysql_servers ∷ [])
    ∷ (codes "MYSQL VARIABLES" ++ tail, [])
    ∷ (codes "PGSQL VARIABLES" ++ tail, [])
    ∷ (codes "ADMIN VARIABLES" ++ tail, [])
    ∷ []

-- The word up to a space.
unfoldable first_word : Text → Text
first_word [] = []
first_word (c ∷ s) = let rest = first_word s in if eqb c b' ' then [] else c ∷ rest

-- Rows of at most 64 values; a text holds no more rows than characters.
abbrev read_insert : Option TableName → Option Text → Command
read_insert (some t) (some s) = elim (read_rows 64 (length s) s) [
  | some rs ↦ insert_into t rs
  | none ↦ refused
]
read_insert o none = refused
read_insert none o = refused

unfoldable pub parse_command : Text → Command
unfolding after find first_word
parse_command q = elim (strip_prefix (codes "DELETE FROM ") q) [
  | some name ↦ elim (find name table_names) [ some t ↦ delete_from t | none ↦ refused ]
  | none ↦ elim (strip_prefix (codes "INSERT INTO ") q) [
    | some s ↦ read_insert (find (first_word s) table_names) (after (codes " VALUES ") s)
    | none ↦ elim (strip_prefix (codes "LOAD ") q) [
      | some s ↦ elim (find s (admin_modules (codes " TO RUNTIME"))) [
        | some ts ↦ load_tables ts
        | none ↦ refused
      ]
      | none ↦ elim (strip_prefix (codes "SAVE ") q) [
        | some s ↦ elim (find s (admin_modules (codes " TO DISK"))) [
          | some ts ↦ save_tables ts
          | none ↦ refused
        ]
        | none ↦ elim (strip_prefix (codes "UPDATE global_variables SET ") q) [
          | some s ↦ set_variable
          | none ↦ refused
        ]
      ]
    ]
  ]
]

abbrev pub apply : Command → Action Configured
apply (delete_from t) c = (fill t [] c, none)
apply (insert_into t rs) c =
    (record c { memory = put t (c.memory t ++ map (named (columns t)) rs) c.memory }, none)
apply (load_tables ts) c = (load ts c, none)
apply (save_tables ts) c = (save ts c, none)
apply set_variable c = (c, none)
apply refused c = (c, some (codes "syntax error"))

abbrev pub instance_port : AdminPort
instance_port = record {
  State = Configured;
  exec = λ q. apply (parse_command q);
  configured = λ c. c;
  Accepts = λ t rs. Unit;
}

obeyed :
    (q : Text) (command : Command) (c c' : Configured)
    → parse_command q ≡ command
    → apply command c ≡ (c', none)
    → apply (parse_command q) c ≡ (c', none)
obeyed q command c c' h k = ap (λ r. apply r c) h ∙ k

parse-delete : (t : TableName) → parse_command (delete_statement t) ≡ delete_from t
unfolding parse_command
parse-delete TableName.mysql_servers = refl
parse-delete TableName.mysql_replication_hostgroups = refl
parse-delete TableName.mysql_hostgroup_attributes = refl
parse-delete TableName.mysql_users = refl
parse-delete TableName.mysql_query_rules = refl
parse-delete TableName.pgsql_servers = refl
parse-delete TableName.pgsql_users = refl
parse-delete TableName.pgsql_query_rules = refl
parse-delete TableName.proxysql_servers = refl

parse-insert :
    (t : TableName) (text : Text)
    → parse_command (insert_head t ++ text) ≡ read_insert (some t) (some text)
unfolding parse_command join
parse-insert TableName.mysql_servers text = refl
parse-insert TableName.mysql_replication_hostgroups text = refl
parse-insert TableName.mysql_hostgroup_attributes text = refl
parse-insert TableName.mysql_users text = refl
parse-insert TableName.mysql_query_rules text = refl
parse-insert TableName.pgsql_servers text = refl
parse-insert TableName.pgsql_users text = refl
parse-insert TableName.pgsql_query_rules text = refl
parse-insert TableName.proxysql_servers text = refl

parse-load :
    (a : AdminModule) → parse_command (load_statement (title a)) ≡ load_tables (tables_of a)
unfolding parse_command
parse-load AdminModule.mysql_servers_module = refl
parse-load AdminModule.mysql_users_module = refl
parse-load AdminModule.mysql_query_rules_module = refl
parse-load AdminModule.pgsql_servers_module = refl
parse-load AdminModule.pgsql_users_module = refl
parse-load AdminModule.pgsql_query_rules_module = refl
parse-load AdminModule.proxysql_servers_module = refl
parse-load AdminModule.mysql_variables = refl
parse-load AdminModule.pgsql_variables = refl
parse-load AdminModule.admin_variables = refl

parse-save :
    (a : AdminModule) → parse_command (save_statement (title a)) ≡ save_tables (tables_of a)
unfolding parse_command
parse-save AdminModule.mysql_servers_module = refl
parse-save AdminModule.mysql_users_module = refl
parse-save AdminModule.mysql_query_rules_module = refl
parse-save AdminModule.pgsql_servers_module = refl
parse-save AdminModule.pgsql_users_module = refl
parse-save AdminModule.pgsql_query_rules_module = refl
parse-save AdminModule.proxysql_servers_module = refl
parse-save AdminModule.mysql_variables = refl
parse-save AdminModule.pgsql_variables = refl
parse-save AdminModule.admin_variables = refl

parse-update : (k v : Text) → parse_command (update_statement k v) ≡ set_variable
unfolding parse_command
parse-update k v = refl

read_insert-some :
    (t : TableName) (text : Text) (rows : List (List Value))
    → read_rows 64 (length text) text ≡ some rows
    → read_insert (some t) (some text) ≡ insert_into t rows
read_insert-some t text rows h = rw (h, read_insert) refl

filled_empty :
    (t : TableName) (rs : List Row) (c : Configured)
    → c.memory t ≡ []
    → record c { memory = put t (c.memory t ++ rs) c.memory } ≡ fill t rs c
filled_empty t rs c h = ap (λ qs. record c { memory = put t (qs ++ rs) c.memory }) h

pub instance_laws : AdminPortLaws instance_port
instance_laws = record {
  deletes = λ t c. (fill t [] c, obeyed _ _ c _ (parse-delete t) refl, refl);
  inserts = λ t text rows c read full empty accepted.
      let given = map (named (columns t)) rows in
      (
        fill t given c,
        obeyed _ _ c _ (parse-insert t text ∙ read_insert-some t text rows read)
            (ap (λ c'. (c', none)) (filled_empty t given c empty)),
        refl,
      );
  loads = λ a c. (load (tables_of a) c, obeyed _ _ c _ (parse-load a) refl, refl);
  saves = λ a c. (save (tables_of a) c, obeyed _ _ c _ (parse-save a) refl, refl);
  updates = λ k v c. (c, obeyed _ _ c _ (parse-update k v) refl, refl);
}
