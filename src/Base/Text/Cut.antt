-- ===== src/Base/Text/Cut.antt =====
-- Texts that are cut at the first occurrence of a byte.
use Prim.Native.Nat.{ℕ}
use mathlib.Core.Path.{◌≡◌}
use mathlib.Core.Logic.{◌≢◌}
use mathlib.Core.List.{[], ◌∷◌, ◌++◌}
use mathlib.Core.Option.{some}
use native.Mathlib.Omega.{arith}
use proxysql_on_k8s.Base.Lists.{All}
use proxysql_on_k8s.Base.Text.{Text, cut}

abbrev pub Without : ℕ → Text → Type 0
Without sep = All (λ c. c ≢ sep)

abbrev pub NoColon : Text → Type 0
NoColon = Without b':'

pub cut-append :
    (sep : ℕ) (head tail : Text)
    → Without sep head
    → cut sep (head ++ sep ∷ tail) ≡ some (head, tail)
unfolding cut
cut-append sep [] tail h = ground arith
cut-append sep (c ∷ head) tail h = ground (arith, cut-append sep head tail h.1)

-- A text has one way to be a head without colons, a colon and a tail.
pub colon_unique :
    (a b s t : Text) → NoColon a → NoColon b → a ++ b':' ∷ s ≡ b ++ b':' ∷ t → (a ≡ b) × (s ≡ t)
colon_unique a b s t ha hb e = ground (arith, cut-append b':' a s ha, cut-append b':' b t hb)
