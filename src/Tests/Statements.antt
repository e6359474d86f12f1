-- ===== src/Tests/Statements.antt =====
-- Literals, INSERTs and what errors quote of them.
use proxysql_on_k8s.Base.{◌≡◌, refl, ◌≤◌, [], ◌∷◌, ◌++◌, some, map, length, arith, List}
use proxysql_on_k8s.Base.Int.{negsuc}
use proxysql_on_k8s.Base.Text.{codes}
use proxysql_on_k8s.Client.Literals.{Value, int, text, null, read_value, read_rows}
use proxysql_on_k8s.Client.Quote.{quote, rows, strip_control}
use proxysql_on_k8s.Client.Quote.Laws.{clean, read_value-quote}
use proxysql_on_k8s.Client.Quote.Rows.{render_rows, read_rows-rows}
use proxysql_on_k8s.Client.Redact.{snippet, redact_quoted_literals}
use proxysql_on_k8s.Client.Redact.Laws.{masked, redact_from-rows}
use proxysql_on_k8s.Client.Redact.Secrets.{
  without_password, redact-mysql_users, redact-update_statement, length-snippet,
}
use proxysql_on_k8s.Client.Sync.{mysql_users_table}
use proxysql_on_k8s.Client.Sync.Columns.{mysql_user_columns}
use proxysql_on_k8s.Client.Sync.Variables.{update_statement}
use proxysql_on_k8s.Tests.Data.{web}

abbrev sample : List (List Value)
sample = (int (negsuc 6) ∷ text (codes "a'); DROP TABLE t; --") ∷ []) ∷ (null ∷ text [] ∷ []) ∷ []

doubled : quote (codes "it's") ≡ codes "'it''s'"
unfolding quote
doubled = refl

read_value-quote_example :
    read_value (quote (codes "a'b") ++ codes ",'c')")
    ≡ some (text (strip_control (codes "a'b")), codes ",'c')")
read_value-quote_example = read_value-quote (codes "a'b") (codes ",'c')") (omega arith)

read_rows-rows_example : read_rows 2 2 (render_rows sample) ≡ some (map (map clean) sample)
read_rows-rows_example =
    read_rows-rows 2 2 (int (negsuc 6) ∷ text (codes "a'); DROP TABLE t; --") ∷ [])
      ((null ∷ text [] ∷ []) ∷ []) (ground arith) (omega arith)

redact_from-rows_example :
    redact_quoted_literals (codes "INSERT " ++ render_rows sample)
    ≡ codes "INSERT " ++ rows (map (map masked) sample)
redact_from-rows_example = redact_from-rows (codes "INSERT ") sample (ground arith)

redact-mysql_users_example :
    redact_quoted_literals (
      mysql_users_table.insert
      ++ rows (map mysql_user_columns (map without_password web.mysql_users)))
    ≡ redact_quoted_literals
        (mysql_users_table.insert ++ rows (map mysql_user_columns web.mysql_users))
redact-mysql_users_example = redact-mysql_users web.mysql_users

redact-update_statement_example :
    redact_quoted_literals (update_statement (codes "mysql-monitor_password") (codes "pa'ss"))
    ≡ codes "UPDATE global_variables SET variable_value='***' WHERE variable_name='***'"
redact-update_statement_example =
    redact-update_statement (codes "mysql-monitor_password") (codes "pa'ss")

length-snippet_example : length (snippet mysql_users_table.insert) ≤ 83
length-snippet_example = length-snippet mysql_users_table.insert
