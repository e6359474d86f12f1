-- ===== src/Base/Int.antt =====
-- Go's int32 fields as integers over the native numbers. The operator compares, prints and parses
-- them and computes nothing with them, so a range stands in a hypothesis where one is needed.
use Prim.Native.Nat.{ℕ, ◌<◌}
use mathlib.Core.Path.{◌≡◌}
use mathlib.Core.Logic.{◌↔◌}
use mathlib.Core.Bool.{Bool, true, false}
use native.Mathlib.Omega.{arith}
use proxysql_on_k8s.Base.Tests.{ltb, eqb}
use proxysql_on_k8s.Base.Equality.{Eq, dec_of}
use proxysql_on_k8s.Base.Sort.{IsTotalOrder}

-- `negsuc n` is -(n + 1).
pub data ℤ : Type 0 where
  pos : ℕ → ℤ
  negsuc : ℕ → ℤ

abbrev pub ltb_ℤ : ℤ → ℤ → Bool
ltb_ℤ (pos m) (pos n) = ltb m n
ltb_ℤ (pos m) (negsuc n) = false
ltb_ℤ (negsuc m) (pos n) = true
ltb_ℤ (negsuc m) (negsuc n) = ltb n m

abbrev pub eqb_ℤ : ℤ → ℤ → Bool
eqb_ℤ (pos m) (pos n) = eqb m n
eqb_ℤ (pos m) (negsuc n) = false
eqb_ℤ (negsuc m) (pos n) = false
eqb_ℤ (negsuc m) (negsuc n) = eqb m n

pub eqb_ℤ_iff : (a b : ℤ) → (eqb_ℤ a b ≡ true) ↔ (a ≡ b)
eqb_ℤ_iff a b = ground arith

instance unfoldable pub int_eq : Eq ℤ
int_eq = record { dec = dec_of eqb_ℤ eqb_ℤ_iff }

abbrev pub IsInt32 : ℤ → Type 0
IsInt32 (pos n) = n < 2147483648
IsInt32 (negsuc n) = n < 2147483648

int_asym : (a b : ℤ) → ltb_ℤ a b ≡ true → ltb_ℤ b a ≡ false
int_asym a b = ground arith

int_neg_trans : (a b c : ℤ) → ltb_ℤ a b ≡ false → ltb_ℤ b c ≡ false → ltb_ℤ a c ≡ false
int_neg_trans a b c = ground arith

int_connex : (a b : ℤ) → ltb_ℤ a b ≡ false → ltb_ℤ b a ≡ false → a ≡ b
int_connex a b = ground arith

pub int_order : IsTotalOrder ltb_ℤ
int_order = record {
  weak = record { asym = int_asym; neg_trans = int_neg_trans };
  connex = int_connex;
}
