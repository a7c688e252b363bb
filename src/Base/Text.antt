-- ===== src/Base/Text.antt =====
-- C string literals as their bytes, and the classes of bytes that the protocol allows.
use Prim.Native.Char.{code}
use Prim.Native.String.{String}
use flight_computer_test.Base.Tests.{leb}
use flight_computer_test.Base.Lists.{Bytes}
use Prim.Native.Nat.{ℕ}
use mathlib.Core.Bool.{Bool, ◌&&◌}
use mathlib.Core.List.{[], ◌∷◌}

-- Every literal of the firmware is ASCII, so its code points are its bytes.
abbrev pub codes : String → Bytes
codes String.[] = []
codes (String.◌∷◌ c s) = code c ∷ codes s

abbrev pub is_digit : ℕ → Bool
is_digit c = leb b'0' c && leb c b'9'

abbrev pub is_lower : ℕ → Bool
is_lower c = leb b'a' c && leb c b'z'
