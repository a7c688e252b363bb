-- ===== src/Base/Decimal.antt =====
-- Decimal digits, as printf's %lu writes them.
use Prim.Native.Nat.{ℕ, zero, suc, ◌+◌, ◌-◌, ◌*◌, ◌/◌, ◌%◌, ◌^◌, ◌≤◌, ◌<◌}
use mathlib.Core.Path.{◌≡◌, refl, ap}
use mathlib.Core.List.{[], ◌∷◌}
use native.Mathlib.Nat.{pow-suc}
use native.Mathlib.Omega.{arith}
use flight_computer_test.Base.Tests.{◌==◌, if◌then◌else◌}
use flight_computer_test.Base.Lists.{Bytes, length, All}

-- The digits of `n` in front of `rest`; the fuel bounds how many.
unfoldable pub digits_from : ℕ → ℕ → Bytes → Bytes
digits_from zero n rest = rest
digits_from (suc fuel) n rest =
    let digit = b'0' + n % 10 in
    let more = digits_from fuel (n / 10) (digit ∷ rest) in
    if n / 10 == 0 then digit ∷ rest else more

unfoldable pub decimal : ℕ → Bytes
unfolding digits_from
decimal n = digits_from (suc n) n []

-- The number that a run of digits stands for, read on from `v`.
abbrev pub value_from : ℕ → Bytes → ℕ
value_from v [] = v
value_from v (c ∷ cs) = value_from (v * 10 + (c - b'0')) cs

abbrev pub IsDigit : ℕ → Type 0
IsDigit c = (b'0' ≤ c) × (c ≤ b'9')

value_step :
    (m n : ℕ) (rest : Bytes)
    → n / 10 ≡ m
    → value_from m ((b'0' + n % 10) ∷ rest) ≡ value_from n rest
value_step m n rest h =
    let e : m * 10 + (b'0' + n % 10 - b'0') ≡ n = omega arith in ap (λ k. value_from k rest) e

value-digits_from :
    (fuel n : ℕ) (rest : Bytes)
    → n < fuel
    → value_from 0 (digits_from fuel n rest) ≡ value_from n rest
unfolding digits_from
value-digits_from zero n rest h = elim h [ ]
value-digits_from (suc fuel) n rest h = ground (
  arith,
  value_step 0 n rest,
  value_step (n / 10) n rest refl,
  value-digits_from fuel (n / 10) ((b'0' + n % 10) ∷ rest),
)

-- Reading the digits of a number gives the number.
pub value-decimal : (n : ℕ) → value_from 0 (decimal n) ≡ n
unfolding decimal
value-decimal n = value-digits_from (suc n) n [] (omega arith)

digits_from-digits :
    (fuel n : ℕ) (rest : Bytes) → All IsDigit rest → All IsDigit (digits_from fuel n rest)
unfolding digits_from
digits_from-digits zero n rest h = h
digits_from-digits (suc fuel) n rest h = ground (
  arith,
  h,
  digits_from-digits fuel (n / 10) ((b'0' + n % 10) ∷ rest) ((omega arith, omega arith), h),
)

pub decimal-digits : (n : ℕ) → All IsDigit (decimal n)
unfolding decimal
decimal-digits n = digits_from-digits (suc n) n [] tt

length-digits_from :
    (fuel k n : ℕ) (rest : Bytes)
    → n < 10 ^ suc k
    → length (digits_from fuel n rest) ≤ suc k + length rest
unfolding digits_from
length-digits_from zero k n rest h = omega arith
length-digits_from (suc fuel) zero n rest h = ground arith
length-digits_from (suc fuel) (suc k) n rest h = ground (
  arith,
  length-digits_from fuel k (n / 10) ((b'0' + n % 10) ∷ rest) (omega (arith, pow-suc 10 (suc k))),
)

-- A number below 10 ^ k takes at most k digits.
pub length-decimal : (k n : ℕ) → n < 10 ^ suc k → length (decimal n) ≤ suc k
unfolding decimal
length-decimal k n h = omega (arith, length-digits_from (suc n) k n [] h)

digits_from-ne : (fuel n : ℕ) (rest : Bytes) → 0 < length (digits_from (suc fuel) n rest)
unfolding digits_from
digits_from-ne zero n rest = ground arith
digits_from-ne (suc fuel) n rest =
    ground (arith, digits_from-ne fuel (n / 10) ((b'0' + n % 10) ∷ rest))

pub decimal_nonempty : (n : ℕ) → 0 < length (decimal n)
unfolding decimal
decimal_nonempty n = digits_from-ne n n []
