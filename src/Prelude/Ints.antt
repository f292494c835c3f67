-- ===== src/Prelude/Ints.antt =====
-- Signed integers over the native numbers: order, equality and decimal text.
use Prim.Native.Nat.{ℕ, suc}
use mathlib.Core.Bool.{Bool, true, false}
use solana_compliance_relaye.Prelude.Tests.{leb, ◌==◌}
use solana_compliance_relaye.Prelude.Text.{String, ◌+++◌, decimal}

pub data ℤ : Type 0 where
  pos : ℕ → ℤ
  -- one less than the negative
  negsuc : ℕ → ℤ

abbrev pub int_leb : ℤ → ℤ → Bool
int_leb (pos a) (pos b) = leb a b
int_leb (pos a) (negsuc b) = false
int_leb (negsuc a) (pos b) = true
int_leb (negsuc a) (negsuc b) = leb b a

abbrev pub int_eq : ℤ → ℤ → Bool
int_eq (pos a) (pos b) = a == b
int_eq (negsuc a) (negsuc b) = a == b
int_eq _ _ = false

-- `Display`.
unfoldable pub int_text : ℤ → String
unfolding decimal
int_text (ℤ.pos a) = decimal a
int_text (ℤ.negsuc a) = "-" +++ decimal (suc a)
