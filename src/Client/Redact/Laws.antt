-- ===== src/Client/Redact/Laws.antt =====
-- What the operator quotes never stands in a masked statement.
use proxysql_on_k8s.Base.{
  ℕ, ◌≡◌, refl, ◌≢◌, List, [], ◌∷◌, ◌++◌, none, some, map, arith, All, ap, ◌∙◌, append_assoc,
  append-nil, sym, false,
}
use mathlib.Core.List.{map-map}
use proxysql_on_k8s.Base.Text.{Text, codes, join, join-append}
use proxysql_on_k8s.Base.Text.Decimal.{format_int, format_int-All}
use proxysql_on_k8s.Client.Quote.{
  quote_mark, quote, double_quotes, strip_control, row, rows, sql_null,
}
use proxysql_on_k8s.Client.Quote.Laws.{StartsNot, render, quote-append}
use proxysql_on_k8s.Client.Quote.Rows.{render_rows}
use proxysql_on_k8s.Client.Literals.{Value, int, text, null}
use proxysql_on_k8s.Client.Redact.{is_quote, redact_from, redact_quoted_literals}

redact_from_dropped :
    (c : ℕ) (t : Text)
    → c ≢ quote_mark
    → redact_from (some quote_mark) (c ∷ t) ≡ redact_from (some quote_mark) t
unfolding redact_from
redact_from_dropped c [] h = ground arith
redact_from_dropped c (d ∷ t) h = ground arith

redact_from_closed :
    (rest : Text)
    → StartsNot quote_mark rest
    → redact_from (some quote_mark) (quote_mark ∷ rest) ≡ quote_mark ∷ redact_from none rest
unfolding redact_from
redact_from_closed [] h = refl
redact_from_closed (d ∷ rest) h = ground arith

redact_from_escaped :
    (t : Text)
    → redact_from (some quote_mark) (quote_mark ∷ quote_mark ∷ t) ≡ redact_from (some quote_mark) t
unfolding redact_from
redact_from_escaped t = refl

redact_from-double_quotes :
    (s rest : Text)
    → StartsNot quote_mark rest
    → redact_from (some quote_mark) (double_quotes s ++ quote_mark ∷ rest)
      ≡ quote_mark ∷ redact_from none rest
unfolding double_quotes
redact_from-double_quotes [] rest h = redact_from_closed rest h
redact_from-double_quotes (c ∷ s) rest h =
    let t = double_quotes s ++ quote_mark ∷ rest in
    ground
      (arith, redact_from-double_quotes s rest h, redact_from_dropped c t, redact_from_escaped t)

pub redact_from-quote :
    (s rest : Text)
    → StartsNot quote_mark rest
    → redact_from none (quote s ++ rest) ≡ codes "'***'" ++ redact_from none rest
unfolding redact_from
redact_from-quote s rest h =
    rw quote-append (rw (redact_from-double_quotes (strip_control s) rest h))

-- Outside of literals a text without quotes is copied.
pub redact_from-copy :
    (p rest : Text)
    → All (λ c. is_quote c ≡ false) p
    → redact_from none (p ++ rest) ≡ p ++ redact_from none rest
unfolding redact_from
redact_from-copy [] rest h = refl
redact_from-copy (c ∷ p) rest h = ground (arith, redact_from-copy p rest h.1)

-- What is left of a value in a masked statement.
abbrev pub masked : Value → Text
masked (int z) = format_int z
masked (text s) = codes "'***'"
masked null = sql_null

redact_from-render :
    (v : Value) (rest : Text)
    → StartsNot quote_mark rest
    → redact_from none (render v ++ rest) ≡ masked v ++ redact_from none rest
redact_from-render (int z) rest h =
    redact_from-copy (format_int z) rest
      (format_int-All z (λ c. is_quote c ≡ false) refl (λ c k. ground arith))
redact_from-render (text s) rest h = redact_from-quote s rest h
redact_from-render null rest h =
    redact_from-copy (codes "NULL") rest (refl, (refl, (refl, (refl, tt))))

redact_from-comma : (t : Text) → redact_from none (b',' ∷ t) ≡ b',' ∷ redact_from none t
unfolding redact_from
redact_from-comma t = refl

-- The cells of a row, or the rows of an INSERT, each with its own mask.
redact_from-join :
    {A : Type 0} (write mask : A → Text)
    → ((a : A) (rest : Text)
        → StartsNot quote_mark rest
        → redact_from none (write a ++ rest) ≡ mask a ++ redact_from none rest)
    → (vs : List A) (rest : Text) → StartsNot quote_mark rest
    → redact_from none (join (codes ",") (map write vs) ++ rest)
      ≡ join (codes ",") (map mask vs) ++ redact_from none rest
unfolding join
redact_from-join write mask one [] rest h = refl
redact_from-join write mask one (v ∷ []) rest h = one v rest h
redact_from-join write mask one (v ∷ u ∷ vs) rest h =
    ap (redact_from none) (join-append (codes ",") (write v) (write u) (map write vs) rest)
    ∙ one v (b',' ∷ (join (codes ",") (map write (u ∷ vs)) ++ rest)) (omega arith)
    ∙ ap (λ t. mask v ++ t)
        (redact_from-comma (join (codes ",") (map write (u ∷ vs)) ++ rest)
          ∙ ap (λ t. b',' ∷ t) (redact_from-join write mask one (u ∷ vs) rest h))
    ∙ sym (join-append (codes ",") (mask v) (mask u) (map mask vs) (redact_from none rest))

redact_from-row :
    (vs : List Value) (rest : Text)
    → StartsNot quote_mark rest
    → redact_from none (row (map render vs) ++ rest) ≡ row (map masked vs) ++ redact_from none rest
unfolding row
redact_from-row vs rest h =
    rw (append_assoc, append_assoc)
      (redact_from-copy (codes "(") _ (refl, tt)
        ∙ ap (λ t. b'(' ∷ t)
            (redact_from-join render masked redact_from-render vs (b')' ∷ rest) (omega arith)
              ∙ ap (λ t. join (codes ",") (map masked vs) ++ t)
                  (redact_from-copy (codes ")") rest (refl, tt))))

-- A statement made of a head without quotes and of rendered rows is masked down to its head, its
-- numbers and its NULLs.
pub redact_from-rows :
    (head : Text) (rs : List (List Value))
    → All (λ c. is_quote c ≡ false) head
    → redact_quoted_literals (head ++ render_rows rs) ≡ head ++ rows (map (map masked) rs)
unfolding redact_quoted_literals rows
redact_from-rows head rs h =
    redact_from-copy head (render_rows rs) h
    ∙ ap (λ t. head ++ t)
        (rw (map-map, map-map)
          (sym (
              ap (redact_from none)
                (append-nil (join (codes ",") (map (λ vs. row (map render vs)) rs))))
            ∙ redact_from-join (λ vs. row (map render vs)) (λ vs. row (map masked vs))
                redact_from-row rs [] tt
            ∙ append-nil _))
