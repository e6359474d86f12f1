-- ===== src/Base/Text/Decimal.antt =====
-- `strconv.FormatInt(n, 10)`, `strconv.Itoa` and `%d`, and `strconv.ParseInt(s, 10, 32)`.
use Prim.Native.Nat.{ℕ, zero, suc, ◌+◌, ◌-◌, ◌*◌, ◌/◌, ◌%◌, ◌≤◌}
use mathlib.Core.Path.{◌≡◌, refl, ap, sym, ◌∙◌}
use mathlib.Core.Logic.{inl, inr, ◌⊎◌, ◌≢◌}
use mathlib.Core.Bool.{Bool, true, false, ◌&&◌}
use mathlib.Core.Option.{Option, none, some, some-injective}
use mathlib.Core.List.{[], ◌∷◌, ◌++◌}
use native.Mathlib.Omega.{arith}
use proxysql_on_k8s.Base.Tests.{ltb, leb, eqb, Bool-cases, if◌then◌else◌}
use proxysql_on_k8s.Base.Lists.{All, All-map, cons-injective}
use proxysql_on_k8s.Base.Int.{ℤ, pos, negsuc, IsInt32}
use proxysql_on_k8s.Base.Text.{Text}
use proxysql_on_k8s.Base.Text.Cut.{NoColon}

-- The fuel is a bound on the number, which each round divides by ten.
digits : ℕ → ℕ → Text → Text
digits zero n out = (b'0' + n % 10) ∷ out
digits (suc fuel) n out =
    let rest = digits fuel (n / 10) ((b'0' + n % 10) ∷ out) in
    if ltb n 10 then (b'0' + n) ∷ out else rest

unfoldable pub format_int : ℤ → Text
unfolding digits
format_int (pos n) = digits n n []
format_int (negsuc n) = b'-' ∷ digits (n + 1) (n + 1) []

-- `%d` of a count.
abbrev pub decimal : ℕ → Text
decimal n = format_int (pos n)

is_digit : ℕ → Bool
is_digit c = leb b'0' c && leb c b'9'

scan : ℕ → Text → Option ℕ
unfolding is_digit
scan n [] = some n
scan n (c ∷ s) = if is_digit c then scan (n * 10 + (c - b'0')) s else none

parse_nat : Text → Option ℕ
unfolding scan
parse_nat [] = none
parse_nat (c ∷ s) = scan 0 (c ∷ s)

-- The magnitude of a negative number may be one more than that of a positive one.
abbrev signed : Bool → Option ℕ → Option ℤ
signed minus none = none
signed true (some zero) = some (pos 0)
signed true (some (suc n)) = if ltb n 2147483648 then some (negsuc n) else none
signed false (some n) = if ltb n 2147483648 then some (pos n) else none

unfoldable pub parse_int32 : Text → Option ℤ
unfolding parse_nat
parse_int32 [] = none
parse_int32 (c ∷ s) =
    if eqb c b'-'
    then signed true (parse_nat s)
    else if eqb c b'+'
    then signed false (parse_nat s)
    else signed false (parse_nat (c ∷ s))

-- An integer of any size, with no plus sign.
unfoldable pub parse_int : Text → Option ℤ
unfolding parse_nat
parse_int [] = none
parse_int (c ∷ s) =
    if eqb c b'-'
    then elim (parse_nat s) [ some (suc n) ↦ some (negsuc n) | _ ↦ none ]
    else elim (parse_nat (c ∷ s)) [ some n ↦ some (pos n) | none ↦ none ]

scan-digits : (fuel n : ℕ) (out : Text) → n ≤ fuel → scan 0 (digits fuel n out) ≡ scan n out
unfolding digits scan
scan-digits zero n out h = ground arith
scan-digits (suc fuel) n out h = ground (arith, scan-digits fuel (n / 10) ((b'0' + n % 10) ∷ out))

abbrev pub IsDecimal : ℕ → Type 0
IsDecimal c = (b'0' ≤ c) × (c ≤ b'9')

digits-All :
    (fuel n : ℕ) (out : Text) → n ≤ fuel → All IsDecimal out → All IsDecimal (digits fuel n out)
unfolding digits
digits-All zero n out h k = ground arith
digits-All (suc fuel) n out h k = ground (arith, digits-All fuel (n / 10) ((b'0' + n % 10) ∷ out))

digits-cons : (fuel n : ℕ) (out : Text) → (c : ℕ) × (s : Text) × (digits fuel n out ≡ c ∷ s)
unfolding digits
digits-cons zero n out = (b'0' + n % 10, out, refl)
digits-cons (suc fuel) n out = elim (Bool-cases (ltb n 10)) [
  | inl e ↦ (b'0' + n, out, rw e)
  | inr e ↦ rw e (digits-cons fuel (n / 10) ((b'0' + n % 10) ∷ out))
]

parse_nat-digits : (fuel n : ℕ) → n ≤ fuel → parse_nat (digits fuel n []) ≡ some n
unfolding parse_nat
parse_nat-digits fuel n h =
    let (c, s, e) = digits-cons fuel n [] in ground (arith, e, scan-digits fuel n [] h)

-- What is printed is read back, over the whole range.
pub parse_int32-format_int : (z : ℤ) → IsInt32 z → parse_int32 (format_int z) ≡ some z
unfolding parse_int32 format_int
parse_int32-format_int (pos n) h =
    let (c, s, e) = digits-cons n n [] in
    let decimal = rw e at (digits-All n n [] (omega arith) tt) in
    let read = rw e at (parse_nat-digits n n (omega arith)) in ground (arith, e)
parse_int32-format_int (negsuc n) h =
    rw (parse_nat-digits (n + 1) (n + 1) (omega arith)) (ground arith)

pub parse_int-format_int : (z : ℤ) → parse_int (format_int z) ≡ some z
unfolding parse_int format_int
parse_int-format_int (pos n) =
    let (c, s, e) = digits-cons n n [] in
    let decimal = rw e at (digits-All n n [] (omega arith) tt) in
    let read = rw e at (parse_nat-digits n n (omega arith)) in ground (arith, e)
parse_int-format_int (negsuc n) = rw (parse_nat-digits (n + 1) (n + 1) (omega arith)) (ground arith)

pub format_int-cons : (z : ℤ) → (c : ℕ) × (s : Text) × (format_int z ≡ c ∷ s)
unfolding format_int
format_int-cons (pos n) = digits-cons n n []
format_int-cons (negsuc n) = (b'-', digits (n + 1) (n + 1) [], refl)

-- A printed number holds digits and a sign, so no separator.
pub format_int-All :
    (z : ℤ) (P : ℕ → Type 0) → P b'-' → ((c : ℕ) → IsDecimal c → P c) → All P (format_int z)
unfolding format_int
format_int-All (pos n) P sign digit =
    All-map IsDecimal P digit _ (digits-All n n [] (omega arith) tt)
format_int-All (negsuc n) P sign digit =
    (sign, All-map IsDecimal P digit _ (digits-All (n + 1) (n + 1) [] (omega arith) tt))

pub format_int-NoColon : (z : ℤ) → NoColon (format_int z)
format_int-NoColon z = format_int-All z (λ c. c ≢ b':') (omega arith) (λ c h. omega arith)

digits_injective : (m n : ℕ) → digits m m [] ≡ digits n n [] → m ≡ n
digits_injective m n e =
    some-injective m n (
      sym (parse_nat-digits m m (omega arith))
      ∙ ap parse_nat e
      ∙ parse_nat-digits n n (omega arith))

pub format_int_injective : (a b : ℤ) → format_int a ≡ format_int b → a ≡ b
unfolding format_int
format_int_injective (pos m) (pos n) e = ap pos (digits_injective m n e)
format_int_injective (pos m) (negsuc n) e =
    let h : All IsDecimal (b'-' ∷ digits (n + 1) (n + 1) []) =
      rw e at (digits-All m m [] (omega arith) tt) in
    absurd (omega arith)
format_int_injective (negsuc m) (pos n) e =
    let h : All IsDecimal (b'-' ∷ digits (m + 1) (m + 1) []) =
      rw (← e) at (digits-All n n [] (omega arith) tt) in
    absurd (omega arith)
format_int_injective (negsuc m) (negsuc n) e =
    let k : m + 1 ≡ n + 1 = digits_injective (m + 1) (n + 1) (cons-injective e) in ground arith

-- A printed number begins with a digit or a sign.
pub format_int_head :
    (z : ℤ) (c : ℕ) (s rest : Text) → format_int z ++ rest ≡ c ∷ s → (c ≡ b'-') ⊎ IsDecimal c
format_int_head z c s rest e =
    let (d, t, shape) = format_int-cons z in
    let head =
      (rw shape at
        (format_int-All z (λ d. (d ≡ b'-') ⊎ IsDecimal d) (inl refl) (λ d h. inr h))).0 in
    ground (arith, shape)
