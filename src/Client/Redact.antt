-- ===== src/Client/Redact.antt =====
-- operator/internal/proxysqlclient/client.go: how a statement is shortened and masked before it
-- stands in an error. Dialling, `Exec` and `Query` themselves belong to the database driver.
pub mod Laws
pub mod Secrets
use proxysql_on_k8s.Base.{
  ℕ, Bool, List, [], ◌∷◌, ◌++◌, Option, none, some, ◌||◌, eqb, leb, length, take, if◌then◌else◌,
}
use proxysql_on_k8s.Base.Text.{Text, codes}
use proxysql_on_k8s.Client.Quote.{quote_mark}

abbrev pub double_quote_mark : ℕ
double_quote_mark = 0x22

abbrev pub is_quote : ℕ → Bool
is_quote r = eqb r quote_mark || eqb r double_quote_mark

-- The loop of `redactQuotedLiterals`; the first argument is the delimiter of the literal that it is
-- inside of.
unfoldable pub redact_from : Option ℕ → Text → Text
redact_from none [] = []
redact_from none (r ∷ q) =
    let masked = r ∷ (codes "***" ++ redact_from (some r) q) in
    let copied = r ∷ redact_from none q in if is_quote r then masked else copied
redact_from (some d) [] = []
redact_from (some d) (r ∷ []) = if eqb r d then d ∷ [] else []
redact_from (some d) (r ∷ e ∷ q) =
    let escaped = redact_from (some d) q in
    let closed = d ∷ redact_from none (e ∷ q) in
    let dropped = redact_from (some d) (e ∷ q) in
    if eqb r d then if eqb e d then escaped else closed else dropped

unfoldable pub redact_quoted_literals : Text → Text
unfolding redact_from
redact_quoted_literals q = redact_from none q

abbrev pub snippet_max : ℕ
snippet_max = 80

-- `redacted[:max] + "..."`
abbrev pub shorten : Text → Text
shorten redacted =
    if leb (length redacted) snippet_max then redacted else take snippet_max redacted ++ codes "..."

unfoldable pub snippet : Text → Text
snippet q = shorten (redact_quoted_literals q)
