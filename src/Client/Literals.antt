-- ===== src/Client/Literals.antt =====
-- How the admin port reads the values of an INSERT: an independent description of the SQL lexical
-- rules (SQLite's) that the helpers of sync.go write for. A literal stands between single quotes, and
-- a doubled quote inside it is one quote; a row is a parenthesised list of values.
use proxysql_on_k8s.Base.{
  ℕ, zero, suc, Bool, true, false, List, [], ◌∷◌, Option, none, some, eqb, if◌then◌else◌, ◌==◌,
  text_eq,
}
use proxysql_on_k8s.Base.Int.{ℤ}
use proxysql_on_k8s.Base.Text.{Text, codes}
use proxysql_on_k8s.Base.Text.Decimal.{parse_int}
use proxysql_on_k8s.Client.Quote.{quote_mark}

pub data Value : Type 0 where
  int : ℤ → Value
  text : Text → Value
  null : Value

-- Puts a character in front of the literal that was read.
abbrev push : ℕ → Option (Text × Text) → Option (Text × Text)
push c none = none
push c (some (s, rest)) = some (c ∷ s, rest)

-- The characters up to the closing quote, and what follows it. The flag says that the character
-- before was a quote whose meaning is not known yet.
unfoldable pub read_body : Text → Bool → Option (Text × Text)
read_body [] true = some ([], [])
read_body [] false = none
read_body (c ∷ s) true =
    let more = push quote_mark (read_body s false) in
    if eqb c quote_mark then more else some ([], c ∷ s)
read_body (c ∷ s) false =
    let pending = read_body s true in
    let more = push c (read_body s false) in if eqb c quote_mark then pending else more

-- The characters up to a separator.
unfoldable pub read_word : Text → Text × Text
read_word [] = ([], [])
read_word (c ∷ s) =
    let (w, rest) = read_word s in
    if eqb c b',' then ([], c ∷ s) else if eqb c b')' then ([], c ∷ s) else (c ∷ w, rest)

unfoldable pub word_value : Text → Option Value
word_value w =
    if w == codes "NULL"
    then some null
    else elim (parse_int w) [ some z ↦ some (int z) | none ↦ none ]

unfoldable pub read_value : Text → Option (Value × Text)
unfolding word_value
read_value [] = none
read_value (c ∷ s) =
    let literal : Option (Value × Text) = elim (read_body s false) [
      | some (t, rest) ↦ some (text t, rest)
      | none ↦ none
    ] in
    let word : Option (Value × Text) =
      let (w, rest) = read_word (c ∷ s) in
      elim (word_value w) [ some v ↦ some (v, rest) | none ↦ none ] in
    if eqb c quote_mark then literal else word

-- The values of a row behind its opening parenthesis. A row of n values takes n rounds.
unfoldable pub read_cells : ℕ → Text → Option (List Value × Text)
read_cells zero s = none
read_cells (suc fuel) s = elim (read_value s) [
  | none ↦ none
  | some (v, []) ↦ none
  | some (v, c ∷ rest) ↦
      let more : Option (List Value × Text) = elim (read_cells fuel rest) [
        | some (vs, t) ↦ some (v ∷ vs, t)
        | none ↦ none
      ] in
      if eqb c b',' then more else if eqb c b')' then some (v ∷ [], rest) else none
]

-- Rows of at most `width` values, up to the end of the text.
unfoldable pub read_rows : ℕ → ℕ → Text → Option (List (List Value))
read_rows width zero s = none
read_rows width (suc fuel) [] = none
read_rows width (suc fuel) (c ∷ s) = elim (read_cells width s) [
  | none ↦ none
  | some (vs, []) ↦ if eqb c b'(' then some (vs ∷ []) else none
  | some (vs, d ∷ rest) ↦
      let more : Option (List (List Value)) = elim (read_rows width fuel rest) [
        | some rows ↦ some (vs ∷ rows)
        | none ↦ none
      ] in
      if eqb c b'(' then if eqb d b',' then more else none else none
]
