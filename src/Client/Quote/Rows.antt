-- ===== src/Client/Quote/Rows.antt =====
-- The rows of an INSERT are read back as they were meant, however many there are.
use proxysql_on_k8s.Base.{
  ℕ, zero, suc, ◌≤◌, ◌<◌, ◌≡◌, refl, ◌≢◌, List, [], ◌∷◌, ◌++◌, some, map, length, length-append,
  All, append_assoc, arith,
}
use proxysql_on_k8s.Base.Text.{Text, codes, join}
use proxysql_on_k8s.Client.Quote.{row, rows}
use proxysql_on_k8s.Client.Quote.Laws.{render, clean, read_cells-join}
use proxysql_on_k8s.Client.Literals.{Value, read_cells, read_rows}

-- A row has a value, and no more than `width`.
abbrev pub Fits : ℕ → List Value → Type 0
Fits width vs = (vs ≢ []) × (length vs ≤ width)

abbrev pub render_rows : List (List Value) → Text
render_rows rs = rows (map (map render) rs)

read_cells-row :
    (width : ℕ) (vs : List Value) (rest : Text)
    → Fits width vs
    → read_cells width (join (codes ",") (map render vs) ++ b')' ∷ rest) ≡ some (map clean vs, rest)
read_cells-row width [] rest h = absurd (h.0 refl)
read_cells-row width (v ∷ vs) rest h = read_cells-join width v vs rest h.1

-- The rows that the helpers write, each of which has a value and at most `width` of them, are read
-- back as those rows, with each text less its control characters, by any reader whose fuel is more
-- than the number of the rows after the first.
pub read_rows-rows :
    (width fuel : ℕ) (vs : List Value) (rs : List (List Value))
    → All (Fits width) (vs ∷ rs)
    → length rs < fuel
    → read_rows width fuel (render_rows (vs ∷ rs)) ≡ some (map (map clean) (vs ∷ rs))
unfolding rows row join read_rows
read_rows-rows width zero vs rs h k = elim k [ ]
read_rows-rows width (suc fuel) vs [] h k = ground (arith, read_cells-row width vs [] h.0)
read_rows-rows width (suc fuel) vs (us ∷ rs) h k = rw append_assoc (
    ground (
      arith,
      read_cells-row width vs (b',' ∷ render_rows (us ∷ rs)) h.0,
      read_rows-rows width fuel us rs h.1 (omega arith),
    ))

-- A text holds at least as many characters as rows.
pub length-rows : (r : List Text) (rs : List (List Text)) → length rs < length (rows (r ∷ rs))
unfolding rows row join
length-rows r [] = omega arith
length-rows r (q ∷ rs) = omega (
  arith,
  length-append (join (codes ",") r) (b')' ∷ []),
  length-append (row r) (codes "," ++ rows (q ∷ rs)),
  length-rows q rs,
)
