-- ===== src/Client/Sync/Convergence/Sections.antt =====
-- The rows that a configuration asks for, and that a table section brings them to the admin port.
use proxysql_on_k8s.Base.Calls.{Action, ◌>>◌, >>_none, succeed}
use proxysql_on_k8s.Base.{
  ℕ, suc, ◌≡◌, ◌≢◌, refl, sym, ap, ◌∙◌, List, [], ◌∷◌, ◌++◌, map, length, length-map, All, fun_ext,
  arith,
}
use mathlib.Core.List.{map-map}
use proxysql_on_k8s.Base.Sort.{sort}
use proxysql_on_k8s.Base.Text.{Text, join}
use proxysql_on_k8s.Client.Literals.{Value}
use proxysql_on_k8s.Client.Quote.Laws.{render, clean}
use proxysql_on_k8s.Client.Quote.Rows.{Fits, render_rows, read_rows-rows, length-rows}
use proxysql_on_k8s.Client.Port.{
  TableName, Row, Tables, Configured, columns, named, put, fill, delete_statement, insert_head,
  AdminPort, AdminPortLaws, executor, Does,
}
use proxysql_on_k8s.Client.Sync.{
  Table, replace_rows, mysql_rule_less, pgsql_rule_less, mysql_servers_table,
  mysql_replication_hostgroups_table, mysql_hostgroup_attributes_table, mysql_users_table,
  mysql_query_rules_table, pgsql_servers_table, pgsql_users_table, pgsql_query_rules_table,
  proxysql_servers_table,
}
use proxysql_on_k8s.Client.Sync.Values.{
  mysql_server_values, mysql_replication_hostgroup_values, mysql_hostgroup_attributes_values,
  mysql_user_values, mysql_query_rule_values, pgsql_server_values, pgsql_user_values,
  pgsql_query_rule_values, proxysql_server_values,
}
use proxysql_on_k8s.Client.Types.{Desired}

-- The values of the rows: one row for each entry, in the code's order.
abbrev pub desired_values : Desired → TableName → List (List Value)
desired_values d TableName.mysql_servers = map mysql_server_values d.mysql_servers
desired_values d TableName.mysql_replication_hostgroups =
    map mysql_replication_hostgroup_values d.mysql_replication_hostgroups
desired_values d TableName.mysql_hostgroup_attributes =
    map mysql_hostgroup_attributes_values d.mysql_hostgroup_attributes
desired_values d TableName.mysql_users = map mysql_user_values d.mysql_users
desired_values d TableName.mysql_query_rules =
    map mysql_query_rule_values (sort mysql_rule_less d.mysql_query_rules)
desired_values d TableName.pgsql_servers = map pgsql_server_values d.pgsql_servers
desired_values d TableName.pgsql_users = map pgsql_user_values d.pgsql_users
desired_values d TableName.pgsql_query_rules =
    map pgsql_query_rule_values (sort pgsql_rule_less d.pgsql_query_rules)
desired_values d TableName.proxysql_servers = map proxysql_server_values d.proxysql_servers

-- The rows that the tables are to hold, by the names of the columns; a text has lost its control
-- characters.
abbrev pub desired_rows : Desired → Tables
desired_rows d t = map (named (columns t)) (map (map clean) (desired_values d t))

-- A table section empties the table, and its INSERT names the table's columns in their order.
pub record Names (t : Table) (name : TableName) : Type 0 where
  pub deletes : t.delete ≡ delete_statement name
  pub inserts : t.insert ≡ insert_head name

pub mysql_servers-Names : Names mysql_servers_table TableName.mysql_servers
unfolding join
mysql_servers-Names = record { deletes = refl; inserts = refl }

pub mysql_replication_hostgroups-Names :
    Names mysql_replication_hostgroups_table TableName.mysql_replication_hostgroups
unfolding join
mysql_replication_hostgroups-Names = record { deletes = refl; inserts = refl }

pub mysql_hostgroup_attributes-Names :
    Names mysql_hostgroup_attributes_table TableName.mysql_hostgroup_attributes
unfolding join
mysql_hostgroup_attributes-Names = record { deletes = refl; inserts = refl }

pub mysql_users-Names : Names mysql_users_table TableName.mysql_users
unfolding join
mysql_users-Names = record { deletes = refl; inserts = refl }

pub mysql_query_rules-Names : Names mysql_query_rules_table TableName.mysql_query_rules
unfolding join
mysql_query_rules-Names = record { deletes = refl; inserts = refl }

pub pgsql_servers-Names : Names pgsql_servers_table TableName.pgsql_servers
unfolding join
pgsql_servers-Names = record { deletes = refl; inserts = refl }

pub pgsql_users-Names : Names pgsql_users_table TableName.pgsql_users
unfolding join
pgsql_users-Names = record { deletes = refl; inserts = refl }

pub pgsql_query_rules-Names : Names pgsql_query_rules_table TableName.pgsql_query_rules
unfolding join
pgsql_query_rules-Names = record { deletes = refl; inserts = refl }

pub proxysql_servers-Names : Names proxysql_servers_table TableName.proxysql_servers
unfolding join
proxysql_servers-Names = record { deletes = refl; inserts = refl }

-- The rows have a value for each column.
abbrev pub IsFull : TableName → List Value → Type 0
IsFull t vs = length vs ≡ length (columns t)

All-clean :
    (t : TableName) (rs : List (List Value))
    → All (IsFull t) rs
    → All (IsFull t) (map (map clean) rs)
All-clean t [] h = tt
All-clean t (vs ∷ rs) h = (length-map clean vs ∙ h.0, All-clean t rs h.1)

full-ne-nil : (n : ℕ) (vs : List Value) → length vs ≡ suc n → vs ≢ []
full-ne-nil n [] h = absurd (ground (arith, h))
full-ne-nil n (v ∷ vs) h = λ e. absurd cc

full-Fits : (t : TableName) (vs : List Value) → IsFull t vs → Fits 64 vs
full-Fits TableName.mysql_servers vs h = (full-ne-nil _ vs h, omega (arith, h))
full-Fits TableName.mysql_replication_hostgroups vs h = (full-ne-nil _ vs h, omega (arith, h))
full-Fits TableName.mysql_hostgroup_attributes vs h = (full-ne-nil _ vs h, omega (arith, h))
full-Fits TableName.mysql_users vs h = (full-ne-nil _ vs h, omega (arith, h))
full-Fits TableName.mysql_query_rules vs h = (full-ne-nil _ vs h, omega (arith, h))
full-Fits TableName.pgsql_servers vs h = (full-ne-nil _ vs h, omega (arith, h))
full-Fits TableName.pgsql_users vs h = (full-ne-nil _ vs h, omega (arith, h))
full-Fits TableName.pgsql_query_rules vs h = (full-ne-nil _ vs h, omega (arith, h))
full-Fits TableName.proxysql_servers vs h = (full-ne-nil _ vs h, omega (arith, h))

All-Fits : (t : TableName) (rs : List (List Value)) → All (IsFull t) rs → All (Fits 64) rs
All-Fits t [] h = tt
All-Fits t (vs ∷ rs) h = (full-Fits t vs h.0, All-Fits t rs h.1)

put-put :
    (name : TableName) (rs qs : List Row) (ts : Tables)
    → put name rs (put name qs ts) ≡ put name rs ts
put-put name rs qs ts = fun_ext (λ u. ground arith)

put_self : (name : TableName) (rs : List Row) (ts : Tables) → put name rs ts name ≡ rs
put_self name rs ts = ground arith

All-of :
    {A : Type 0} (Q : List Value → Type 0) {f : A → List Value}
    → ((a : A) → Q (f a))
    → (xs : List A) → All Q (map f xs)
All-of Q h [] = tt
All-of Q h (x ∷ xs) = (h x, All-of Q h xs)

module _ (P : AdminPort) (laws : AdminPortLaws P) where
  -- Two actions one after the other.
  pub Does->> :
      (m k : Action P.State) (s : P.State) (f g : Configured → Configured)
      → Does P m s f
      → ((s' : P.State) → P.configured s' ≡ f (P.configured s) → Does P k s' g)
      → Does P (◌>>◌ m k) s (λ c. g (f c))
  Does->> m k s f g (s₁, ran, now) next =
      let (s₂, rest, later) = next s₁ now in (s₂, >>_none m k s s₁ ran ∙ rest, later ∙ ap g now)

  pub succeed-Does : (s : P.State) → Does P succeed s (λ c. c)
  succeed-Does s = (s, refl, refl)

  -- A section fills its table with the rows that it is given, where the table takes them.
  pub replace_rows-Does :
      (t : Table) (name : TableName)
      → Names t name
      → (rs : List (List Value)) → All (IsFull name) rs
      → P.Accepts name (map (named (columns name)) (map (map clean) rs))
      → (s : P.State)
      → Does P
          (replace_rows (executor P) t (map (map render) rs))
          s
          (fill name (map (named (columns name)) (map (map clean) rs)))
  unfolding replace_rows
  replace_rows-Does t name n [] full accepted s = rw n.deletes (
      Does->> (P.exec (delete_statement name)) succeed s (fill name []) (λ c. c)
        (laws.deletes name s) (λ s' now. succeed-Does s'))
  replace_rows-Does t name n (vs ∷ rs) full accepted s =
      rw (n.deletes, n.inserts)
        (let given = map (named (columns name)) (map (map clean) (vs ∷ rs)) in
          let text = render_rows (vs ∷ rs) in
          let (s', ran, now) =
            Does->> (P.exec (delete_statement name)) (P.exec (insert_head name ++ text)) s
              (fill name []) (fill name given) (laws.deletes name s)
              λ s' now.
                laws.inserts name text (map (map clean) (vs ∷ rs)) s'
                  (read_rows-rows 64 (length text) vs rs (All-Fits name (vs ∷ rs) full) (
                    omega (
                      arith,
                      length-rows (map render vs) (map (map render) rs),
                      length-map (map render) rs,
                    )))
                  (All-clean name (vs ∷ rs) full)
                  (ap (λ c. c.memory name) now ∙ put_self name [] (P.configured s).memory)
                  accepted in
          (
            s',
            ran,
            now
                ∙ ap (λ ts. record (P.configured s) { memory = ts })
                    (put-put name given [] (P.configured s).memory),
          ))

  -- A section over the entries of any table.
  pub replace_rows-entries :
      {A : Type 0} (t : Table) (name : TableName) (texts : A → List Text) (values : A → List Value)
      → Names t name
      → ((a : A) → map render (values a) ≡ texts a)
      → ((a : A) → IsFull name (values a))
      → (entries : List A)
      → P.Accepts name (map (named (columns name)) (map (map clean) (map values entries)))
      → (s : P.State)
      → Does P
          (replace_rows (executor P) t (map texts entries))
          s
          (fill name (map (named (columns name)) (map (map clean) (map values entries))))
  replace_rows-entries t name texts values n same full entries accepted s = rw texts_rendered (
      replace_rows-Does t name n (map values entries) (All-of (IsFull name) full entries) accepted
        s)
    where
      texts_rendered : map texts entries ≡ map (map render) (map values entries)
      texts_rendered =
          sym (map-map (map render) values entries ∙ ap (λ f. map f entries) (fun_ext same))
