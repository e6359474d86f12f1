-- ===== src/Base/Text.antt =====
-- Go strings as lists of bytes. Text that the Kubernetes API delivers is UTF-8, and the code looks
-- for ASCII characters only, so its loops over runes are loops over bytes here.
pub mod Order
pub mod Decimal
pub mod Cut
use Prim.Native.Nat.{ℕ, zero, suc}
use Prim.Native.Char.{code}
use Prim.Native.String.{String}
use mathlib.Core.Bool.{Bool, true, false}
use mathlib.Core.List.{List, [], ◌∷◌, ◌++◌, append_assoc}
use mathlib.Core.Option.{Option, none, some}
use mathlib.Core.Path.{◌≡◌, ◌∙◌, ap}
use proxysql_on_k8s.Base.Tests.{ltb, eqb, if◌then◌else◌}

abbrev pub Text : Type 0
Text = List ℕ

-- The bytes of a literal in ASCII.
abbrev pub codes : String → Text
codes String.[] = []
codes (String.◌∷◌ c s) = code c ∷ codes s

-- `s < t` on strings.
unfoldable pub text_ltb : Text → Text → Bool
text_ltb [] [] = false
text_ltb [] (d ∷ t) = true
text_ltb (c ∷ s) [] = false
text_ltb (c ∷ s) (d ∷ t) = if ltb c d then true else if ltb d c then false else text_ltb s t

-- `strings.Join`
unfoldable pub join : Text → List Text → Text
join sep [] = []
join sep (s ∷ []) = s
join sep (s ∷ t ∷ ts) = s ++ (sep ++ join sep (t ∷ ts))

pub join-append :
    (sep s t : Text) (ts : List Text) (rest : Text)
    → join sep (s ∷ t ∷ ts) ++ rest ≡ s ++ (sep ++ (join sep (t ∷ ts) ++ rest))
unfolding join
join-append sep s t ts rest =
    append_assoc s (sep ++ join sep (t ∷ ts)) rest
    ∙ ap (λ u. s ++ u) (append_assoc sep (join sep (t ∷ ts)) rest)

-- `strings.Cut` at one byte: the text before its first occurrence and the text behind it.
unfoldable pub cut : ℕ → Text → Option (Text × Text)
cut sep [] = none
cut sep (c ∷ s) =
    let deeper : Option (Text × Text) = elim (cut sep s) [
      | none ↦ none
      | some (head, tail) ↦ some (c ∷ head, tail)
    ] in
    if eqb c sep then some ([], s) else deeper

-- `strings.HasPrefix`
unfoldable pub has_prefix : Text → Text → Bool
has_prefix s [] = true
has_prefix [] (d ∷ p) = false
has_prefix (c ∷ s) (d ∷ p) = let rest = has_prefix s p in if eqb c d then rest else false
