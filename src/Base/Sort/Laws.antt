-- ===== src/Base/Sort/Laws.antt =====
-- The sort permutes its input and puts it in order.
pub mod Order
use mathlib.Core.Path.{◌≡◌, refl}
use mathlib.Core.Logic.{◌⊎◌, ◌↔◌, inl, inr}
use mathlib.Core.Bool.{Bool, false}
use mathlib.Core.List.{List, [], ◌∷◌, Perm}
use mathlib.Core.List.Perm
use native.Mathlib.Omega.{arith}
use proxysql_on_k8s.Base.Tests.{Bool-cases}
use proxysql_on_k8s.Base.Lists.{All, In}
use proxysql_on_k8s.Base.Sort.{insert, sort, IsSorted, IsWeakOrder}

module _ {A : Type 0} (less : A → A → Bool) where
  insert-perm : (x : A) (ys : List A) → Perm (insert less x ys) (x ∷ ys)
  unfolding insert
  insert-perm x [] = Perm.refl (x ∷ [])
  insert-perm x (y ∷ ys) = elim (Bool-cases (less y x)) [
    | inl e ↦ rw e (Perm.trans (Perm.cons y (insert-perm x ys)) (Perm.swap x y ys))
    | inr e ↦ rw e (Perm.refl (x ∷ y ∷ ys))
  ]

  pub sort-perm : (xs : List A) → Perm (sort less xs) xs
  unfolding sort
  sort-perm [] = Perm.refl []
  sort-perm (x ∷ xs) = Perm.trans (insert-perm x (sort less xs)) (Perm.cons x (sort-perm xs))

  pub In-insert : (a x : A) (ys : List A) → In a (insert less x ys) ↔ ((x ≡ a) ⊎ In a ys)
  unfolding insert
  In-insert a x [] = ground arith
  In-insert a x (y ∷ ys) = ground (arith, In-insert a x ys)

  pub In-sort : (a : A) (xs : List A) → In a (sort less xs) ↔ In a xs
  unfolding sort
  In-sort a [] = ground arith
  In-sort a (x ∷ xs) = ground (arith, In-sort a xs, In-insert a x (sort less xs))

  pub sort_nil : (xs : List A) → sort less xs ≡ [] → xs ≡ []
  sort_nil [] h = refl
  sort_nil (x ∷ xs) h = absurd (rw h at ((In-sort x (x ∷ xs)).1 (inl refl)))

module _ {A : Type 0} (less : A → A → Bool) (w : IsWeakOrder less) where
  All-insert : (P : A → Type 0) (x : A) (ys : List A) → P x → All P ys → All P (insert less x ys)
  unfolding insert
  All-insert P x [] px h = (px, tt)
  All-insert P x (y ∷ ys) px h = ground (arith, All-insert P x ys px h.1)

  All-weaken :
      (x y : A) (zs : List A)
      → less y x ≡ false
      → All (λ z. less z y ≡ false) zs
      → All (λ z. less z x ≡ false) zs
  All-weaken x y [] e h = tt
  All-weaken x y (z ∷ zs) e h = (w.neg_trans z y x h.0 e, All-weaken x y zs e h.1)

  insert-IsSorted : (x : A) (ys : List A) → IsSorted less ys → IsSorted less (insert less x ys)
  unfolding insert
  insert-IsSorted x [] h = (tt, tt)
  insert-IsSorted x (y ∷ ys) h = elim (Bool-cases (less y x)) [
    | inl e ↦
        rw e (All-insert (λ z. less z y ≡ false) x ys (w.asym y x e) h.0, insert-IsSorted x ys h.1)
    | inr e ↦ rw e ((e, All-weaken x y ys e h.0), h)
  ]

  pub sort-IsSorted : (xs : List A) → IsSorted less (sort less xs)
  unfolding sort
  sort-IsSorted [] = tt
  sort-IsSorted (x ∷ xs) = insert-IsSorted x (sort less xs) (sort-IsSorted xs)
