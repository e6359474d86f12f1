-- ===== src/Tests/Restarts.antt =====
-- A change of a variable, and one of an interface.
use proxysql_on_k8s.Base.{◌≡◌, ◌≢◌, ◌↔◌, refl, [], ◌∷◌, ◌++◌, text_eq}
use proxysql_on_k8s.Base.Text.{Text, codes, join}
use proxysql_on_k8s.Base.Dict.{lookup, insert}
use proxysql_on_k8s.Restart.Cnf.{
  normalize_cnf, scan_cnf, scan_lines, section_start, is_structural, parse_cnf_variables,
  put_variables, unquote,
}
use proxysql_on_k8s.Restart.Cnf.Lines.{split_lines, var_line, span, trim_right}
use proxysql_on_k8s.Restart.Cnf.Laws.{SameLines, normalize_cnf_same}
use proxysql_on_k8s.Restart.Verdict.{Data, proxysql_cnf_key, diff_non_cnf_keys}
use proxysql_on_k8s.Restart.Verdict.Laws.{diff_non_cnf_keys_nil}

abbrev pub cnf_with : Text → Text
cnf_with value = join (codes "\n") (
    codes "datadir=\"/var\""
    ∷ codes "mysql_variables="
    ∷ codes "{"
    ∷ (codes "    threads=" ++ value)
    ∷ codes "    interfaces=\"0.0.0.0:6033\""
    ∷ codes "}"
    ∷ [])

read_variable :
    parse_cnf_variables (cnf_with (codes "\"4\" ")) ≡ (codes "mysql-threads", codes "4") ∷ []
unfolding parse_cnf_variables join scan_cnf scan_lines section_start split_lines var_line span
    trim_right put_variables is_structural unquote insert text_eq
read_variable = refl

normalize_cnf_same_example :
    (normalize_cnf (cnf_with (codes "4")) ≡ normalize_cnf (cnf_with (codes "8")))
    ↔ SameLines (scan_cnf (cnf_with (codes "4"))) (scan_cnf (cnf_with (codes "8")))
normalize_cnf_same_example = normalize_cnf_same (cnf_with (codes "4")) (cnf_with (codes "8"))

abbrev pub data_with : Text → Data
data_with value = (proxysql_cnf_key, cnf_with value) ∷ (codes "fluent-bit.conf", codes "x") ∷ []

diff_non_cnf_keys_nil_example :
    (diff_non_cnf_keys (data_with (codes "4")) (data_with (codes "8")) ≡ []) ↔ (
      (k : Text)
      → k ≢ proxysql_cnf_key
      → lookup k (data_with (codes "4")) ≡ lookup k (data_with (codes "8")))
diff_non_cnf_keys_nil_example =
    diff_non_cnf_keys_nil (data_with (codes "4")) (data_with (codes "8"))
