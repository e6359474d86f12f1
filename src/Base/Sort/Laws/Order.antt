-- ===== src/Base/Sort/Laws/Order.antt =====
-- Where no two elements tie, the order of the input does not matter to the sort.
use mathlib.Core.Path.{◌≡◌, refl, ap, ◌∙◌, subst}
use mathlib.Core.Logic.{inl, inr}
use mathlib.Core.Bool.{Bool, true, false}
use mathlib.Core.List.{List, [], ◌∷◌, Permᴰ}
use mathlib.Core.List.Permᴰ
use native.Mathlib.Omega.{arith}
use proxysql_on_k8s.Base.Tests.{if◌then◌else◌}
use proxysql_on_k8s.Base.Lists.{In, keep}
use proxysql_on_k8s.Base.Sort.{insert, sort, IsWeakOrder}

module _ {A : Type 0} where
  pub In-rearranged : {xs ys : List A} (a : A) → Permᴰ xs ys → In a ys → In a xs
  In-rearranged a Permᴰ.nil h = h
  In-rearranged a (Permᴰ.cons e d) (inl p) = inl (e ∙ p)
  In-rearranged a (Permᴰ.cons e d) (inr h) = inr (In-rearranged a d h)
  In-rearranged a (Permᴰ.swap e e') (inl p) = inr (inl (e' ∙ p))
  In-rearranged a (Permᴰ.swap e e') (inr (inl p)) = inl (e ∙ p)
  In-rearranged a (Permᴰ.swap e e') (inr (inr h)) = inr (inr h)
  In-rearranged a (Permᴰ.trans d d') h = In-rearranged a d (In-rearranged a d' h)

  add_if :
      {xs ys : List A} (b : Bool) (x : A)
      → Permᴰ xs ys
      → Permᴰ (if b then x ∷ xs else xs) (if b then x ∷ ys else ys)
  add_if true x d = Permᴰ.cons refl d
  add_if false x d = d

  swap_if :
      (b c : Bool) (x y : A) (zs : List A)
      → Permᴰ
          (if b then x ∷ (if c then y ∷ zs else zs) else (if c then y ∷ zs else zs))
          (if c then y ∷ (if b then x ∷ zs else zs) else (if b then x ∷ zs else zs))
  swap_if true true x y zs = Permᴰ.swap refl refl
  swap_if true false x y zs = Permᴰ.refl (x ∷ zs)
  swap_if false true x y zs = Permᴰ.refl (y ∷ zs)
  swap_if false false x y zs = Permᴰ.refl zs

  -- What passes a test of a rearranged list is rearranged.
  pub keep_rearranged :
      (p : A → Bool) {xs ys : List A} → Permᴰ xs ys → Permᴰ (keep p xs) (keep p ys)
  keep_rearranged p Permᴰ.nil = Permᴰ.nil
  keep_rearranged p (Permᴰ.cons {a = a} {l₁ = l₁} {l₂ = l₂} e d) =
      subst (λ b. Permᴰ (keep p (a ∷ l₁)) (keep p (b ∷ l₂))) e
        (add_if (p a) a (keep_rearranged p d))
  keep_rearranged p (Permᴰ.swap {a = a} {b = b} {a' = a'} {b' = b'} {l = l} e e') =
      subst (λ u. Permᴰ (keep p (a ∷ b ∷ l)) (keep p (a' ∷ u ∷ l))) e
        (subst (λ u. Permᴰ (keep p (a ∷ b ∷ l)) (keep p (u ∷ a ∷ l))) e'
          (swap_if (p a) (p b) a b (keep p l)))
  keep_rearranged p (Permᴰ.trans d d') = Permᴰ.trans (keep_rearranged p d) (keep_rearranged p d')

  pub In-keep : (p : A → Bool) (a : A) (xs : List A) → In a (keep p xs) → In a xs
  In-keep p a [] h = h
  In-keep p a (x ∷ xs) h = ground (arith, In-keep p a xs)

module _ {A : Type 0} (less : A → A → Bool) where
  Tie : A → A → Type 0
  Tie x y = (less x y ≡ false) × (less y x ≡ false)

  -- Two elements of the list that tie are one.
  abbrev pub NoTies : List A → Type 0
  NoTies xs = (x y : A) → In x xs → In y xs → less x y ≡ false → less y x ≡ false → x ≡ y

  module _ (w : IsWeakOrder less) where
    insert_comm :
        (x y : A) (zs : List A)
        → (less x y ≡ false → less y x ≡ false → x ≡ y)
        → insert less x (insert less y zs) ≡ insert less y (insert less x zs)
    unfolding insert
    insert_comm x y [] h = ground (arith, w.asym x y, h)
    insert_comm x y (z ∷ zs) h = ground (
      arith,
      insert_comm x y zs h,
      w.asym x y,
      h,
      w.neg_trans z x y,
      w.neg_trans z y x,
      w.asym z y,
      w.asym z x,
    )

    pub sort_rearranged : {xs ys : List A} → Permᴰ xs ys → NoTies xs → sort less xs ≡ sort less ys
    unfolding sort
    sort_rearranged Permᴰ.nil h = refl
    sort_rearranged (Permᴰ.cons {a = a} {l₂ = l₂} e d) h =
        ap (insert less a) (sort_rearranged d (λ x y i j. h x y (inr i) (inr j)))
        ∙ ap (λ u. insert less u (sort less l₂)) e
    sort_rearranged (Permᴰ.swap {a = a} {b = b} {a' = a'} {l = l} e e') h =
        insert_comm a b (sort less l) (h a b (inl refl) (inr (inl refl)))
        ∙ ap (λ u. insert less u (insert less a (sort less l))) e'
        ∙ ap (λ u. insert less a' (insert less u (sort less l))) e
    sort_rearranged (Permᴰ.trans d d') h =
        sort_rearranged d h
        ∙ sort_rearranged d' (λ x y i j. h x y (In-rearranged x d i) (In-rearranged y d j))
