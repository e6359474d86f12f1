-- ===== src/Base/Sort.antt =====
-- Go's `sort.Strings`, `slices.Sort` and `sort.Slice`: a sort by a Boolean "less". Go leaves the
-- order of equal elements open in `sort.Slice`; this insertion sort keeps the input's.
pub mod Laws
use mathlib.Core.Path.{◌≡◌}
use mathlib.Core.Bool.{Bool, true, false}
use mathlib.Core.List.{List, [], ◌∷◌}
use proxysql_on_k8s.Base.Tests.{if◌then◌else◌}
use proxysql_on_k8s.Base.Lists.{All}

module _ {A : Type 0} (less : A → A → Bool) where
  unfoldable pub insert : A → List A → List A
  insert x [] = x ∷ []
  insert x (y ∷ ys) = if less y x then y ∷ insert x ys else x ∷ y ∷ ys

  unfoldable pub sort : List A → List A
  unfolding insert
  sort [] = []
  sort (x ∷ xs) = insert x (sort xs)

  -- No later element is less than an earlier one.
  abbrev pub IsSorted : List A → Type 0
  IsSorted [] = Unit
  IsSorted (x ∷ xs) = All (λ y. less y x ≡ false) xs × IsSorted xs

  pub record IsWeakOrder : Type 0 where
    pub asym : (a b : A) → less a b ≡ true → less b a ≡ false
    pub neg_trans : (a b c : A) → less a b ≡ false → less b c ≡ false → less a c ≡ false

  pub record IsTotalOrder : Type 0 where
    pub weak : IsWeakOrder
    pub connex : (a b : A) → less a b ≡ false → less b a ≡ false → a ≡ b
