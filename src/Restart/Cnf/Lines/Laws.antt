-- ===== src/Restart/Cnf/Lines/Laws.antt =====
-- Lines put together and split again, and what the regular expression finds in a line whose value is
-- replaced.
use proxysql_on_k8s.Base.{
  ℕ, ◌≡◌, ◌≢◌, refl, sym, ap, ◌∙◌, Bool, true, false, List, [], ◌∷◌, ◌++◌, some, eqb, All,
  Bool-cases, inl, inr, arith,
}
use mathlib.Core.Option.{some-injective}
use proxysql_on_k8s.Base.Text.{Text, codes, join}
use proxysql_on_k8s.Restart.Cnf.Lines.{
  newline, on_first, split_lines, is_space, is_key_char, span, trim_right, VarLine, after_key,
  var_line,
}

abbrev pub OneLine : Text → Type 0
OneLine = All (λ c. c ≢ newline)

on_first-OneLine :
    (c : ℕ) (ls : List Text) → c ≢ newline → All OneLine ls → All OneLine (on_first c ls)
on_first-OneLine c [] n h = ((n, tt), tt)
on_first-OneLine c (l ∷ ls) n h = ((n, h.0), h.1)

pub split_lines-OneLine : (s : Text) → All OneLine (split_lines s)
unfolding split_lines
split_lines-OneLine [] = (tt, tt)
split_lines-OneLine (c ∷ s) = elim (Bool-cases (eqb c newline)) [
  | inl e ↦ rw e (tt, split_lines-OneLine s)
  | inr e ↦ rw e (on_first-OneLine c (split_lines s) (ground arith) (split_lines-OneLine s))
]

on_first_some : (c : ℕ) (ls : List Text) → on_first c ls ≢ []
on_first_some c [] h = cc
on_first_some c (l ∷ ls) h = cc

pub split_lines_some : (s : Text) → split_lines s ≢ []
unfolding split_lines
split_lines_some [] = λ h. cc
split_lines_some (c ∷ s) = elim (Bool-cases (eqb c newline)) [
  | inl e ↦ rw e (λ h. cc)
  | inr e ↦ rw e (on_first_some c (split_lines s))
]

split_lines-append : (l s : Text) → OneLine l → split_lines (l ++ newline ∷ s) ≡ l ∷ split_lines s
unfolding split_lines
split_lines-append [] s h = refl
split_lines-append (c ∷ l) s h = ground (arith, split_lines-append l s h.1)

split_lines-one : (l : Text) → OneLine l → split_lines l ≡ l ∷ []
unfolding split_lines
split_lines-one [] h = refl
split_lines-one (c ∷ l) h = ground (arith, split_lines-one l h.1)

pub split_lines-join :
    (l : Text) (ls : List Text)
    → All OneLine (l ∷ ls)
    → split_lines (join (codes "\n") (l ∷ ls)) ≡ l ∷ ls
unfolding join
split_lines-join l [] h = split_lines-one l h.0
split_lines-join l (m ∷ ls) h =
    split_lines-append l (join (codes "\n") (m ∷ ls)) h.0
    ∙ ap (λ t. l ∷ t) (split_lines-join m ls h.1)

module _ (p : ℕ → Bool) where
  abbrev pub Starts : Text → Type 0
  Starts [] = Unit
  Starts (c ∷ s) = p c ≡ false

  span-All : (s : Text) → All (λ c. p c ≡ true) (span p s).0
  unfolding span
  span-All [] = tt
  span-All (c ∷ s) = elim (Bool-cases (p c)) [ inl e ↦ rw e (e, span-All s) | inr e ↦ rw e tt ]

  span-keeps : (P : ℕ → Type 0) (s : Text) → All P s → All P (span p s).0 × All P (span p s).1
  unfolding span
  span-keeps P [] h = (tt, tt)
  span-keeps P (c ∷ s) h = elim (Bool-cases (p c)) [
    | inl e ↦ rw e ((h.0, (span-keeps P s h.1).0), (span-keeps P s h.1).1)
    | inr e ↦ rw e (tt, h)
  ]

  span-append :
      (run rest : Text)
      → All (λ c. p c ≡ true) run
      → Starts rest
      → span p (run ++ rest) ≡ (run, rest)
  unfolding span
  span-append [] [] h s = refl
  span-append [] (c ∷ rest) h s = rw s refl
  span-append (c ∷ run) rest h s = rw (h.0, span-append run rest h.1 s) refl

-- What is known of the parts of a line that the expression matches.
pub record Parts (line : Text) (v : VarLine) : Type 0 where
  pub spaces : All (λ c. is_space c ≡ true) v.leading
  pub chars : All (λ c. is_key_char c ≡ true) v.key
  pub named : v.key ≢ []
  pub one_line : OneLine line → OneLine v.leading × OneLine v.key

after_key-some :
    (leading key rest : Text) (v : VarLine)
    → after_key leading key rest ≡ some v
    → (v.leading ≡ leading) × ((v.key ≡ key) × (key ≢ []))
after_key-some leading [] rest v e = absurd (ground arith)
after_key-some leading (k ∷ key) [] v e = absurd (ground arith)
after_key-some leading (k ∷ key) (c ∷ rest) v e = elim (Bool-cases (eqb c b'=')) [
  | inl h ↦
      let w : VarLine = record { leading = leading; key = k ∷ key; value = trim_right rest } in
      let whole : after_key leading (k ∷ key) (c ∷ rest) ≡ some w = rw h refl in
      let same : v ≡ w = some-injective v w (sym e ∙ whole) in
      (ap (λ w. w.leading) same, (ap (λ w. w.key) same, λ n. cc))
  | inr h ↦ absurd (ground arith)
]

pub var_line-Parts : (line : Text) (v : VarLine) → var_line line ≡ some v → Parts line v
unfolding var_line
var_line-Parts line v e =
    let body : Text = (span is_space line).1 in
    let (el, (ek, n)) =
      after_key-some (span is_space line).0 (span is_key_char body).0 (span is_key_char body).1 v
        e in
    record {
      spaces = rw el (span-All is_space line);
      chars = rw ek (span-All is_key_char body);
      named = rw ek n;
      one_line = λ h.
          let kept = span-keeps is_space (λ c. c ≢ newline) line h in
          (rw el kept.0, rw ek (span-keeps is_key_char (λ c. c ≢ newline) body kept.1).0);
    }

key_char_not_space : (k : ℕ) → is_key_char k ≡ true → is_space k ≡ false
key_char_not_space k h = ground arith

-- A line with the same white space and key, and another value that is kept as it is, is matched with
-- the same white space and key.
pub var_line-append :
    (leading key value : Text)
    → All (λ c. is_space c ≡ true) leading
    → All (λ c. is_key_char c ≡ true) key
    → key ≢ []
    → var_line (leading ++ (key ++ b'=' ∷ value))
      ≡ some (record { leading = leading; key = key; value = trim_right value })
unfolding var_line
var_line-append leading [] value hs hk n = absurd (n refl)
var_line-append leading (k ∷ key) value hs hk n =
    let not_space : is_space k ≡ false = key_char_not_space k hk.0 in
    rw (span-append is_space leading ((k ∷ key) ++ b'=' ∷ value) hs not_space) (
      ap (λ t. after_key leading t.0 t.1)
        (span-append is_key_char (k ∷ key) (b'=' ∷ value) hk refl))
