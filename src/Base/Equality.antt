-- ===== src/Base/Equality.antt =====
-- Go's `==` on the types that the operator compares, as a decision.
use Prim.Native.Nat.{ℕ}
use mathlib.Core.Path.{◌≡◌}
use mathlib.Core.Logic.{ite, dite, ◌↔◌}
use mathlib.Core.Bool.{Bool, true, false, Bool-discrete, ◌&&◌, ◌||◌}
use mathlib.Core.List.{List, [], ◌∷◌}
use native.Mathlib.Omega.{arith}
use proxysql_on_k8s.Base.Tests.{eqb, eqb_iff}

pub record Eq {ℓ} (A : Type ℓ) : Type ℓ where
  pub dec : Discrete A

module _ {ℓ} {A : Type ℓ} ⦃e : Eq A⦄ where
  infix 50 ◌==◌
  abbrev pub ◌==◌ : A → A → Bool
  a == b = ite (e.dec a b) true false

  pub same_lem : (a b : A) → a == b ≡ true → a ≡ b
  same_lem a b h = ground arith

  -- `slices.Contains`
  abbrev pub contains : List A → A → Bool
  contains [] a = false
  contains (x ∷ xs) a = x == a || contains xs a

-- A decision from a Boolean test and its law.
abbrev pub dec_of {ℓ} :
    {A : Type ℓ} (test : A → A → Bool) → ((a b : A) → (test a b ≡ true) ↔ (a ≡ b)) → Discrete A
dec_of test law a b =
    dite (Bool-discrete (test a b) true) (λ same. yes ((law a b).0 same))
      (λ differ. no (λ p. differ ((law a b).1 p)))

instance unfoldable pub nat_eq : Eq ℕ
nat_eq = record { dec = dec_of eqb eqb_iff }

pub text_eqb : List ℕ → List ℕ → Bool
text_eqb [] [] = true
text_eqb [] (d ∷ t) = false
text_eqb (c ∷ s) [] = false
text_eqb (c ∷ s) (d ∷ t) = eqb c d && text_eqb s t

pub text_eqb_iff : (s t : List ℕ) → (text_eqb s t ≡ true) ↔ (s ≡ t)
unfolding text_eqb
text_eqb_iff [] [] = ground arith
text_eqb_iff [] (d ∷ t) = ground arith
text_eqb_iff (c ∷ s) [] = ground arith
text_eqb_iff (c ∷ s) (d ∷ t) = ground (arith, text_eqb_iff s t)

-- Go strings as their bytes.
instance unfoldable pub text_eq : Eq (List ℕ)
unfolding text_eqb
text_eq = record { dec = dec_of text_eqb text_eqb_iff }
