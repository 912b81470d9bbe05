-- ===== src/Base/Ints.antt =====
-- The values of a C `int`, which may be negative.
use Prim.Native.Nat.{ℕ}
use mathlib.Core.Bool.{Bool, true, false}
use vedruino.Base.Tests.{◌==◌ as nat_eq}

-- `negsuc n` is -1 - n.
pub data ℤ : Type 0 where
  pos : ℕ → ℤ
  negsuc : ℕ → ℤ

abbrev pub is_negative : ℤ → Bool
is_negative (ℤ.pos n) = false
is_negative (ℤ.negsuc n) = true

abbrev pub int_eq : ℤ → ℤ → Bool
int_eq (ℤ.pos m) (ℤ.pos n) = nat_eq m n
int_eq (ℤ.negsuc m) (ℤ.negsuc n) = nat_eq m n
int_eq _ _ = false
