-- ===== src/Client/Sync/Variables.antt =====
-- `syncVariables`, `loadSave`, `ReloadTLS` and `syncSQLStatements` of sync.go.
use proxysql_on_k8s.Base.Calls.{Action, succeed, ◌>>◌}
use proxysql_on_k8s.Base.{ℕ, suc, List, [], ◌∷◌, ◌++◌, none, some, text_eq}
use proxysql_on_k8s.Base.Int.{pos}
use proxysql_on_k8s.Base.Text.{Text, codes, text_ltb}
use proxysql_on_k8s.Base.Text.Decimal.{format_int}
use proxysql_on_k8s.Base.Sort.{sort}
use proxysql_on_k8s.Base.Dict.{Dict, keys, lookup}
use proxysql_on_k8s.Client.Quote.{quote}
use proxysql_on_k8s.Client.Executor.{Executor}

-- The statements around a domain's name, as `loadSave` writes them.
abbrev pub load_statement : Text → Text
load_statement what = codes "LOAD " ++ (what ++ codes " TO RUNTIME")

abbrev pub save_statement : Text → Text
save_statement what = codes "SAVE " ++ (what ++ codes " TO DISK")

-- `vars[k]` of a key that was ranged over; a missing key reads as the empty string.
unfoldable pub value_of : Dict Text Text → Text → Text
value_of vars k = elim (lookup k vars) [ some v ↦ v | none ↦ [] ]

abbrev pub update_statement : Text → Text → Text
update_statement k v =
    codes "UPDATE global_variables SET variable_value="
    ++ (quote v ++ (codes " WHERE variable_name=" ++ quote k))

module _ (E : Executor) where
  open E use {State, exec}

  unfoldable pub load_save : Text → Action State
  load_save what = do exec (load_statement what); exec (save_statement what)

  -- The loop over the sorted keys.
  unfoldable pub update_variables : Dict Text Text → List Text → Action State
  update_variables vars [] = succeed
  update_variables vars (k ∷ ks) = do
    exec (update_statement k (value_of vars k))
    update_variables vars ks

  -- `syncVariables`
  unfoldable pub sync_variables : Dict Text Text → Text → Action State
  sync_variables [] domain = succeed
  sync_variables (v ∷ vars) domain = do
    update_variables (v ∷ vars) (sort text_ltb (keys (v ∷ vars)))
    load_save (domain ++ codes " VARIABLES")

  -- `ApplyVariables`
  abbrev pub apply_variables : Dict Text Text → Text → Action State
  apply_variables vars domain = sync_variables vars domain

  unfoldable pub reload_tls : Action State
  reload_tls = exec (codes "PROXYSQL RELOAD TLS")

  -- `fmt.Errorf("sqlStatements[%d]: %w", i, err)`
  abbrev pub statement_error : ℕ → Text → Text
  statement_error i e = codes "sqlStatements[" ++ (format_int (pos i) ++ (codes "]: " ++ e))

  -- The loop of `syncSQLStatements`, from the index `i` on.
  unfoldable pub sync_sql_statements : ℕ → List Text → Action State
  sync_sql_statements i [] s = (s, none)
  sync_sql_statements i (stmt ∷ rest) s =
      let (s', err) = exec stmt s in
      elim err [
        | none ↦ sync_sql_statements (suc i) rest s'
        | some e ↦ (s', some (statement_error i e))
      ]
