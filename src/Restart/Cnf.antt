-- ===== src/Restart/Cnf.antt =====
-- operator/internal/controller/builders/cnf_variables.go: a rendered proxysql.cnf, line by line.
pub mod Lines
pub mod Laws
use proxysql_on_k8s.Base.{
  ℕ, Bool, true, false, not, ◌&&◌, ◌||◌, List, [], ◌∷◌, ◌++◌, Option, none, some, eqb, leb, map,
  if◌then◌else◌, ◌==◌, text_eq, contains,
}
use proxysql_on_k8s.Base.Dict.{Dict, insert}
use proxysql_on_k8s.Base.Text.{Text, codes, join}
use Lines.{split_lines, var_line, VarLine}

abbrev pub structural_cnf_keys : List Text
structural_cnf_keys =
    codes "admin-admin_credentials"
    ∷ codes "admin-mysql_ifaces"
    ∷ codes "mysql-interfaces"
    ∷ codes "pgsql-interfaces"
    ∷ codes "mysql-ssl_p2s_ca"
    ∷ codes "mysql-ssl_p2s_cert"
    ∷ codes "mysql-ssl_p2s_key"
    ∷ codes "pgsql-ssl_p2s_ca"
    ∷ codes "pgsql-ssl_p2s_cert"
    ∷ codes "pgsql-ssl_p2s_key"
    ∷ []

unfoldable pub is_structural : Text → Bool
unfolding text_eq
is_structural name = contains structural_cnf_keys name

-- `cnfSectionStart`: the section's prefix.
unfoldable pub section_start : Text → Option Text
unfolding text_eq
section_start line =
    if line == codes "admin_variables="
    then some (codes "admin")
    else if line == codes "mysql_variables="
    then some (codes "mysql")
    else if line == codes "pgsql_variables="
    then some (codes "pgsql")
    else none

-- `cnfLine`: a variable's line has what `isVar` announces, any other line its text alone.
pub data CnfLine : Type 0 where
  plain : Text → CnfLine
  variable : (text prefix key full_name value : Text) → CnfLine

-- The loop of `scanCnf`; the first argument is the prefix of the section that it is inside of.
unfoldable pub scan_lines : Option Text → List Text → List CnfLine
scan_lines section [] = []
scan_lines none (line ∷ lines) = plain line ∷ scan_lines (section_start line) lines
scan_lines (some prefix) (line ∷ lines) =
    let closed = plain line ∷ scan_lines none lines in
    let rest = scan_lines (some prefix) lines in
    if line == codes "}" then closed else elim (var_line line) [
      | some v ↦ variable line v.leading v.key (prefix ++ (codes "-" ++ v.key)) v.value ∷ rest
      | none ↦ plain line ∷ rest
    ]

unfoldable pub scan_cnf : Text → List CnfLine
scan_cnf cnf = scan_lines none (split_lines cnf)

abbrev pub double_quote : ℕ
double_quote = 0x22

-- The text up to a double quote that is its last character.
unfoldable pub without_end_quote : Text → Option Text
without_end_quote [] = none
without_end_quote (c ∷ []) = if eqb c double_quote then some [] else none
without_end_quote (c ∷ d ∷ s) = elim (without_end_quote (d ∷ s)) [
  | some t ↦ some (c ∷ t)
  | none ↦ none
]

unfoldable pub unquote : Text → Text
unfolding without_end_quote
unquote [] = []
unquote (c ∷ s) =
    let inner : Text = elim (without_end_quote s) [ some t ↦ t | none ↦ c ∷ s ] in
    if eqb c double_quote then inner else c ∷ s

-- The loop of `ParseCnfVariables`.
unfoldable pub put_variables : List CnfLine → Dict Text Text → Dict Text Text
put_variables [] out = out
put_variables (plain line ∷ ls) out = put_variables ls out
put_variables (variable line leading key name value ∷ ls) out =
    put_variables ls (if is_structural name then out else insert name (unquote value) out)

unfoldable pub parse_cnf_variables : Text → Dict Text Text
parse_cnf_variables cnf = put_variables (scan_cnf cnf) []

abbrev pub runtime_line : Text → Text → Text
runtime_line leading key = leading ++ (key ++ codes "=<runtime>")

unfoldable pub normal_line : CnfLine → Text
normal_line (plain line) = line
normal_line (variable line leading key name value) =
    if is_structural name then line else runtime_line leading key

unfoldable pub normalize_cnf : Text → Text
normalize_cnf cnf = join (codes "\n") (map normal_line (scan_cnf cnf))
