-- ===== src/Base/Text/Order.antt =====
-- The order of strings is total.
use mathlib.Core.Path.{◌≡◌, refl}
use mathlib.Core.Bool.{true, false}
use mathlib.Core.List.{[], ◌∷◌}
use native.Mathlib.Omega.{arith}
use proxysql_on_k8s.Base.Sort.{IsTotalOrder}
use proxysql_on_k8s.Base.Text.{Text, text_ltb}

text_ltb_asym : (s t : Text) → text_ltb s t ≡ true → text_ltb t s ≡ false
unfolding text_ltb
text_ltb_asym [] [] h = refl
text_ltb_asym [] (d ∷ t) h = refl
text_ltb_asym (c ∷ s) [] h = cc
text_ltb_asym (c ∷ s) (d ∷ t) h = ground (arith, text_ltb_asym s t)

text_ltb_neg_trans :
    (s t u : Text) → text_ltb s t ≡ false → text_ltb t u ≡ false → text_ltb s u ≡ false
unfolding text_ltb
text_ltb_neg_trans [] [] u h k = k
text_ltb_neg_trans [] (d ∷ t) u h k = cc
text_ltb_neg_trans (c ∷ s) t [] h k = refl
text_ltb_neg_trans (c ∷ s) [] (e ∷ u) h k = cc
text_ltb_neg_trans (c ∷ s) (d ∷ t) (e ∷ u) h k = ground (arith, text_ltb_neg_trans s t u)

text_ltb_connex : (s t : Text) → text_ltb s t ≡ false → text_ltb t s ≡ false → s ≡ t
unfolding text_ltb
text_ltb_connex [] [] h k = refl
text_ltb_connex [] (d ∷ t) h k = cc
text_ltb_connex (c ∷ s) [] h k = cc
text_ltb_connex (c ∷ s) (d ∷ t) h k = ground (arith, text_ltb_connex s t)

pub text_order : IsTotalOrder text_ltb
text_order = record {
  weak = record { asym = text_ltb_asym; neg_trans = text_ltb_neg_trans };
  connex = text_ltb_connex;
}
