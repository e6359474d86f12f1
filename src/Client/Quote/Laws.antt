-- ===== src/Client/Quote/Laws.antt =====
-- What the helpers write is read back as the value that was meant.
use proxysql_on_k8s.Base.{
  ℕ, zero, suc, ◌≡◌, refl, ◌≢◌, false, List, [], ◌∷◌, ◌++◌, some, length, arith, All, All-map,
  append_assoc, ap, map, inl, inr, ◌⊎◌, ◌<◌, text_eq,
}
use proxysql_on_k8s.Base.Int.{ℤ}
use proxysql_on_k8s.Base.Text.{Text, codes, join}
use proxysql_on_k8s.Base.Text.Decimal.{
  format_int, parse_int, parse_int-format_int, format_int-All, format_int-cons,
}
use proxysql_on_k8s.Client.Quote.{quote_mark, quote, sql_null, double_quotes, strip_control}
use proxysql_on_k8s.Client.Literals.{
  Value, int, text, null, read_body, read_word, word_value, read_value, read_cells,
}

-- The rest of the text does not go on with `c`.
abbrev pub StartsNot : ℕ → Text → Type 0
StartsNot c [] = Unit
StartsNot c (d ∷ s) = d ≢ c

read_body-double_quotes :
    (s rest : Text)
    → StartsNot quote_mark rest
    → read_body (double_quotes s ++ quote_mark ∷ rest) false ≡ some (s, rest)
unfolding double_quotes read_body
read_body-double_quotes [] [] h = refl
read_body-double_quotes [] (d ∷ rest) h = ground arith
read_body-double_quotes (c ∷ s) rest h = ground (arith, read_body-double_quotes s rest h)

-- The parts of a quoted text in front of what follows it.
pub quote-append :
    (s rest : Text)
    → quote s ++ rest ≡ quote_mark ∷ (double_quotes (strip_control s) ++ quote_mark ∷ rest)
unfolding quote
quote-append s rest =
    ap (λ t. quote_mark ∷ t) (append_assoc (double_quotes (strip_control s)) (quote_mark ∷ []) rest)

-- A quoted text is one literal, whatever the text holds: in front of anything that does not go on with
-- a quote, reading it stops at the closing quote, and gives the text without its control characters.
pub read_value-quote :
    (s rest : Text)
    → StartsNot quote_mark rest
    → read_value (quote s ++ rest) ≡ some (text (strip_control s), rest)
unfolding read_value
read_value-quote s rest h =
    rw quote-append (ground (arith, read_body-double_quotes (strip_control s) rest h))

-- The text that the helpers write for a value, and the value that the admin port reads from it.
abbrev pub render : Value → Text
render (int z) = format_int z
render (text s) = quote s
render null = sql_null

abbrev pub clean : Value → Value
clean (int z) = int z
clean (text s) = text (strip_control s)
clean null = null

abbrev Ends : ℕ → Type 0
Ends c = (c ≡ b',') ⊎ (c ≡ b')')

abbrev Inside : ℕ → Type 0
Inside c = (c ≢ b',') × (c ≢ b')')

read_word-append :
    (w : Text) (c : ℕ) (rest : Text)
    → All Inside w
    → Ends c
    → read_word (w ++ c ∷ rest) ≡ (w, c ∷ rest)
unfolding read_word
read_word-append [] c rest h e = ground arith
read_word-append (d ∷ w) c rest h e = ground (arith, read_word-append w c rest h.1 e)

word_value-format_int : (z : ℤ) → word_value (format_int z) ≡ some (int z)
unfolding word_value parse_int
word_value-format_int z = ground (arith, parse_int-format_int z)

read_value-render :
    (v : Value) (c : ℕ) (rest : Text)
    → Ends c
    → read_value (render v ++ c ∷ rest) ≡ some (clean v, c ∷ rest)
unfolding read_value
read_value-render (int z) c rest e =
    let (d, s, shape) = format_int-cons z in
    let inside =
      rw shape at
        (format_int-All z (λ d. Inside d × (d ≢ quote_mark)) (omega arith) (λ d h. omega arith)) in
    rw shape (
      ground (
        arith,
        shape,
        word_value-format_int z,
        read_word-append (d ∷ s) c rest (All-map _ Inside (λ d h. h.0) (d ∷ s) inside) e,
      ))
read_value-render (text s) c rest e = read_value-quote s (c ∷ rest) (ground arith)
read_value-render null c rest e =
    ground (arith, read_word-append (codes "NULL") c rest (omega arith) e)

pub read_cells-join :
    (fuel : ℕ) (v : Value) (vs : List Value) (rest : Text)
    → length vs < fuel
    → read_cells fuel (join (codes ",") (map render (v ∷ vs)) ++ b')' ∷ rest)
      ≡ some (map clean (v ∷ vs), rest)
unfolding read_cells join
read_cells-join zero v vs rest h = elim h [ ]
read_cells-join (suc fuel) v [] rest h = ground (arith, read_value-render v b')' rest (inr refl))
read_cells-join (suc fuel) v (u ∷ vs) rest h =
    rw (append_assoc, read_cells)
      (ground (
        arith,
        read_value-render v b',' (join (codes ",") (map render (u ∷ vs)) ++ b')' ∷ rest) (inl refl),
        read_cells-join fuel u vs rest (omega arith),
      ))
