-- ===== src/Client/Quote.antt =====
-- operator/internal/proxysqlclient/sync.go, the helpers: how a field becomes SQL text. The columns
-- that may be NULL and those that have a default are rendered by different helpers.
pub mod Laws
pub mod Rows
use proxysql_on_k8s.Base.{
  ℕ, Bool, true, false, not, ◌&&◌, ◌||◌, List, [], ◌∷◌, ◌++◌, Option, none, some, ltb, eqb, keep,
  map, if◌then◌else◌, ◌==◌, text_eq,
}
use proxysql_on_k8s.Base.Int.{ℤ, pos, int_eq}
use proxysql_on_k8s.Base.Text.{Text, codes, join}
use proxysql_on_k8s.Base.Text.Decimal.{format_int}

abbrev pub quote_mark : ℕ
quote_mark = 0x27

is_strip_control : ℕ → Bool
is_strip_control r =
    (ltb r 0x20 && (not (eqb r 0x09) && (not (eqb r 0x0a) && not (eqb r 0x0d)))) || eqb r 0x7f

-- `strings.IndexFunc(s, p) >= 0`
any : (ℕ → Bool) → Text → Bool
any p [] = false
any p (c ∷ s) = p c || any p s

-- `stripControl`, on bytes, which agrees with the code's strings.Map on valid UTF-8. Where a control
-- character stands in bytes that are not, as a Secret may hold them, the code also puts U+FFFD for
-- each invalid byte, which is outside the model.
pub strip_control : Text → Text
strip_control s = if not (any is_strip_control s) then s else keep (λ r. not (is_strip_control r)) s

-- `strings.ReplaceAll(s, "'", "''")`
unfoldable pub double_quotes : Text → Text
double_quotes [] = []
double_quotes (c ∷ s) =
    let rest = double_quotes s in
    if eqb c quote_mark then quote_mark ∷ quote_mark ∷ rest else c ∷ rest

unfoldable pub quote : Text → Text
unfolding double_quotes strip_control any is_strip_control
quote s = quote_mark ∷ (double_quotes (strip_control s) ++ quote_mark ∷ [])

abbrev pub sql_null : Text
sql_null = codes "NULL"

unfoldable pub default_int32 : ℤ → ℤ → ℤ
unfolding int_eq
default_int32 v def = if v == pos 0 then def else v

unfoldable pub nullable_int32 : Option ℤ → Text
nullable_int32 none = sql_null
nullable_int32 (some n) = format_int n

unfoldable pub def_int32 : Option ℤ → ℤ → Text
def_int32 none def = format_int def
def_int32 (some n) def = format_int n

unfoldable pub nullable_bool_as_int : Option Bool → Text
nullable_bool_as_int none = sql_null
nullable_bool_as_int (some true) = codes "1"
nullable_bool_as_int (some false) = codes "0"

unfoldable pub nullable_string : Text → Text
unfolding text_eq
nullable_string s = if s == [] then sql_null else quote s

unfoldable pub def_bool_as_int : Option Bool → Bool → Text
def_bool_as_int p def =
    let v : Bool = elim p [ none ↦ def | some b ↦ b ] in if v then codes "1" else codes "0"

-- One row of an INSERT, as the format strings `"(%d,%s,…)"` lay its columns out.
unfoldable pub row : List Text → Text
row cells = b'(' ∷ (join (codes ",") cells ++ b')' ∷ [])

-- The rows of an INSERT, with a comma before each but the first.
unfoldable pub rows : List (List Text) → Text
rows rs = join (codes ",") (map row rs)
