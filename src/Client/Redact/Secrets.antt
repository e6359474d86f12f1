-- ===== src/Client/Redact/Secrets.antt =====
-- client.go: the statements that hold passwords, as an error quotes them.
use proxysql_on_k8s.Base.{
  ◌≡◌, refl, ◌≤◌, List, [], ◌∷◌, ◌++◌, map, ap, ◌∙◌, sym, fun_ext, All, length, length-append,
  length-take-le, arith, take, false, true, leb, none, Bool, not, ◌&&◌, append-nil, Bool-cases, inl,
  inr,
}
use mathlib.Core.List.{map-map}
use proxysql_on_k8s.Base.Text.{Text, codes}
use proxysql_on_k8s.Client.Types.{MySqlUser}
use proxysql_on_k8s.Client.Literals.{Value}
use proxysql_on_k8s.Client.Quote.{quote, rows}
use proxysql_on_k8s.Client.Quote.Laws.{render}
use proxysql_on_k8s.Client.Redact.{redact_quoted_literals, redact_from, snippet, shorten, is_quote}
use proxysql_on_k8s.Client.Redact.Laws.{masked, redact_from-rows, redact_from-quote}
use proxysql_on_k8s.Client.Sync.{mysql_users_table}
use proxysql_on_k8s.Client.Sync.Columns.{mysql_user_columns}
use proxysql_on_k8s.Client.Sync.Values.{mysql_user_values, render-mysql_user_values}
use proxysql_on_k8s.Client.Sync.Variables.{update_statement}

-- A fixed text is seen to hold no quote by running through it.
abbrev lacks_quotes : Text → Bool
lacks_quotes [] = true
lacks_quotes (c ∷ s) = not (is_quote c) && lacks_quotes s

All-lacks : (s : Text) → lacks_quotes s ≡ true → All (λ c. is_quote c ≡ false) s
All-lacks [] h = tt
All-lacks (c ∷ s) h = (ground arith, All-lacks s (ground arith))

redact_from-quote_end : (s : Text) → redact_from none (quote s) ≡ codes "'***'"
redact_from-quote_end s =
    ap (redact_from none) (sym (append-nil (quote s)))
    ∙ redact_from-quote s [] tt
    ∙ ap (λ t. codes "'***'" ++ t) (unfold redact_from in refl)

columns-masked :
    {A : Type 0} (head : Text) (columns : A → List Text) (values : A → List Value)
    → All (λ c. is_quote c ≡ false) head
    → ((a : A) → map render (values a) ≡ columns a)
    → (entries : List A)
    → redact_quoted_literals (head ++ rows (map columns entries))
      ≡ head ++ rows (map (λ a. map masked (values a)) entries)
columns-masked head columns values h same entries =
    ap (λ rs. redact_quoted_literals (head ++ rows rs))
      (sym (map-map (map render) values entries ∙ ap (λ f. map f entries) (fun_ext same)))
    ∙ redact_from-rows head (map values entries) h
    ∙ ap (λ rs. head ++ rows rs) (map-map (map masked) values entries)

-- Rows whose values differ only inside their literals are masked alike.
redact-columns :
    {A : Type 0} (head : Text) (columns : A → List Text) (values : A → List Value) (hide : A → A)
    → All (λ c. is_quote c ≡ false) head
    → ((a : A) → map render (values a) ≡ columns a)
    → ((a : A) → map masked (values (hide a)) ≡ map masked (values a))
    → (entries : List A)
    → redact_quoted_literals (head ++ rows (map columns (map hide entries)))
      ≡ redact_quoted_literals (head ++ rows (map columns entries))
redact-columns head columns values hide h same alike entries =
    columns-masked head columns values h same (map hide entries)
    ∙ ap (λ rs. head ++ rows rs)
        (map-map (λ a. map masked (values a)) hide entries
          ∙ ap (λ f. map f entries) (fun_ext alike))
    ∙ sym (columns-masked head columns values h same entries)

abbrev pub without_password : MySqlUser → MySqlUser
without_password u = record u { password = [] }

-- The masked text of the INSERT into mysql_users does not depend on any password.
pub redact-mysql_users :
    (users : List MySqlUser)
    → redact_quoted_literals
        (mysql_users_table.insert ++ rows (map mysql_user_columns (map without_password users)))
      ≡ redact_quoted_literals (mysql_users_table.insert ++ rows (map mysql_user_columns users))
redact-mysql_users users =
    redact-columns mysql_users_table.insert mysql_user_columns mysql_user_values without_password
      (All-lacks mysql_users_table.insert refl) render-mysql_user_values (λ u. refl) users

-- Whatever a variable's value is, such as the monitor's password, the statement that sets it is
-- masked down to its fixed words.
pub redact-update_statement :
    (k v : Text)
    → redact_quoted_literals (update_statement k v)
      ≡ codes "UPDATE global_variables SET variable_value='***' WHERE variable_name='***'"
unfolding redact_quoted_literals
redact-update_statement k v = rw (
  redact_from-quote v (codes " WHERE variable_name=" ++ quote k) (omega arith),
  redact_from-quote_end k,
)

length-shorten : (r : Text) → length (shorten r) ≤ 83
length-shorten r = elim (Bool-cases (leb (length r) 80)) [
  | inl short ↦ rw short (ground arith)
  | inr long ↦ rw long (omega (arith, length-append (take 80 r) (codes "..."), length-take-le 80 r))
]

-- A snippet holds at most 83 characters.
pub length-snippet : (q : Text) → length (snippet q) ≤ 83
unfolding snippet
length-snippet q = length-shorten (redact_quoted_literals q)
