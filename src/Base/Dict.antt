-- ===== src/Base/Dict.antt =====
-- Go maps as association lists. Go leaves a map's iteration order open; here it is the order of
-- insertion, and the code that ranges over a map sorts what it collects.
pub mod Laws
use mathlib.Core.Bool.{Bool, true, false}
use mathlib.Core.List.{List, [], ◌∷◌}
use mathlib.Core.Option.{Option, none, some}
use mathlib.Core.Path.{◌≡◌}
use proxysql_on_k8s.Base.Tests.{if◌then◌else◌}
use proxysql_on_k8s.Base.Equality.{Eq, ◌==◌}

abbrev pub Dict : Type 0 → Type 0 → Type 0
Dict K V = List (K × V)

module _ {K V : Type 0} where
  unfoldable pub keys : Dict K V → List K
  keys [] = []
  keys ((k, v) ∷ m) = k ∷ keys m

module _ {K V : Type 0} ⦃e : Eq K⦄ where
  -- `m[k]`, with `none` for a missing key.
  unfoldable pub lookup : K → Dict K V → Option V
  lookup k [] = none
  lookup k ((j, v) ∷ m) = if j == k then some v else lookup k m

  -- `m[k] = v`
  unfoldable pub insert : K → V → Dict K V → Dict K V
  insert k v [] = (k, v) ∷ []
  insert k v ((j, w) ∷ m) = if j == k then (k, v) ∷ m else (j, w) ∷ insert k v m

  -- `delete(m, k)`
  unfoldable pub erase : K → Dict K V → Dict K V
  erase k [] = []
  erase k ((j, w) ∷ m) = let rest = erase k m in if j == k then rest else (j, w) ∷ rest

  -- `maps.Copy(dst, src)`
  unfoldable pub copy : Dict K V → Dict K V → Dict K V
  copy dst [] = dst
  copy dst ((k, v) ∷ src) = copy (insert k v dst) src

  -- No key stands twice, as in every map that `insert` builds.
  abbrev pub NodupKeys : Dict K V → Type 0
  NodupKeys [] = Unit
  NodupKeys ((k, v) ∷ m) = (lookup k m ≡ none) × NodupKeys m

module _ {K : Type 0} ⦃e : Eq K⦄ where
  -- `m[k]` of a `map[K]bool`, where a missing key reads as false.
  unfoldable pub is_set : K → Dict K Bool → Bool
  unfolding lookup
  is_set k m = elim (lookup k m) [ some b ↦ b | none ↦ false ]

  -- The map that sets each of the keys.
  unfoldable pub set_all : List K → Dict K Bool → Dict K Bool
  set_all [] m = m
  set_all (k ∷ ks) m = set_all ks (insert k true m)
