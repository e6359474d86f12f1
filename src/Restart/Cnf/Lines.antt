-- ===== src/Restart/Cnf/Lines.antt =====
-- `strings.Split(cnf, "\n")`, and the regular expression `cnfVarLine` as the function that it denotes:
-- `^(\s*)([a-z0-9_]+)=(.*?)\s*$`. White space and key characters are disjoint, so its greedy parts
-- are the longest runs, and its lazy part is what stands before the white space at the end.
pub mod Laws
use proxysql_on_k8s.Base.{
  ℕ, Bool, true, false, ◌&&◌, ◌||◌, List, [], ◌∷◌, Option, none, some, eqb, leb, if◌then◌else◌,
}
use proxysql_on_k8s.Base.Text.{Text}

abbrev pub newline : ℕ
newline = 0x0a

-- A character in front of the first line.
abbrev pub on_first : ℕ → List Text → List Text
on_first c [] = (c ∷ []) ∷ []
on_first c (l ∷ ls) = (c ∷ l) ∷ ls

unfoldable pub split_lines : Text → List Text
split_lines [] = [] ∷ []
split_lines (c ∷ s) =
    let rest = split_lines s in if eqb c newline then [] ∷ rest else on_first c rest

-- `\s`
abbrev pub is_space : ℕ → Bool
is_space c = eqb c 0x20 || (eqb c 0x09 || (eqb c 0x0a || (eqb c 0x0c || eqb c 0x0d)))

-- `[a-z0-9_]`
abbrev pub is_key_char : ℕ → Bool
is_key_char c = (leb b'a' c && leb c b'z') || ((leb b'0' c && leb c b'9') || eqb c b'_')

-- The longest run of characters that pass a test, and what follows it.
unfoldable pub span : (ℕ → Bool) → Text → Text × Text
span p [] = ([], [])
span p (c ∷ s) = let (run, rest) = span p s in if p c then (c ∷ run, rest) else ([], c ∷ s)

unfoldable pub trim_right : Text → Text
trim_right [] = []
trim_right (c ∷ s) =
    let rest = trim_right s in
    elim rest [ [] ↦ if is_space c then [] else c ∷ [] | d ∷ t ↦ c ∷ d ∷ t ]

pub record VarLine : Type 0 where
  pub leading : Text
  pub key : Text
  pub value : Text

-- Behind the key, the line goes on with `=`.
abbrev pub after_key : Text → Text → Text → Option VarLine
after_key leading [] rest = none
after_key leading key [] = none
after_key leading (k ∷ key) (c ∷ value) =
    if eqb c b'='
    then some (record { leading = leading; key = k ∷ key; value = trim_right value })
    else none

unfoldable pub var_line : Text → Option VarLine
unfolding span trim_right
var_line line =
    let (leading, body) = span is_space line in
    let (key, rest) = span is_key_char body in after_key leading key rest
