-- ===== src/Base/Int.antt =====
-- Signed integers of the C types, `negsuc n` for -(n + 1), and how printf's %d writes them.
use Prim.Native.Nat.{ℕ, ◌+◌}
use mathlib.Core.List.{◌∷◌}
use flight_computer_test.Base.Lists.{Bytes}
use flight_computer_test.Base.Decimal.{decimal}

pub data ℤ : Type 0 where
  pos : ℕ → ℤ
  negsuc : ℕ → ℤ

unfoldable pub signed_decimal : ℤ → Bytes
signed_decimal (pos n) = decimal n
signed_decimal (negsuc n) = b'-' ∷ decimal (n + 1)
