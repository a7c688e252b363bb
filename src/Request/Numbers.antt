-- ===== src/Request/Numbers.antt =====
-- The number readers against the decimal numbers that texts stand for.
use flight_computer_test.Base.{
  ℕ, ◌+◌, ◌-◌, ◌*◌, ◌^◌, ◌≤◌, ◌<◌, ◌≡◌, ◌≢◌, refl, sym, ◌↔◌, some, [], ◌∷◌, Bytes, All, arith,
}
use flight_computer_test.Base.Decimal.{value_from, IsDigit, decimal, value-decimal, decimal-digits}
use flight_computer_test.Request.{
  Token, primitive, token_text, read_digits, parse_positive_uint32, parse_uint8,
}

-- The value never falls as digits are read on.
value_from_mono : (v : ℕ) (cs : Bytes) → v ≤ value_from v cs
value_from_mono v [] = omega arith
value_from_mono v (c ∷ cs) = omega (arith, value_from_mono (v * 10 + (c - b'0')) cs)

read_digits-some :
    (limit v n : ℕ) (cs : Bytes)
    → v ≤ limit
    → read_digits limit v cs ≡ some n
    → All IsDigit cs × (n ≡ value_from v cs) × (n ≤ limit)
unfolding read_digits
read_digits-some limit v n [] h e = ground arith
read_digits-some limit v n (c ∷ cs) h e =
    ground (arith, read_digits-some limit (v * 10 + (c - b'0')) n cs)

read_digits-value :
    (limit v : ℕ) (cs : Bytes)
    → All IsDigit cs
    → value_from v cs ≤ limit
    → read_digits limit v cs ≡ some (value_from v cs)
unfolding read_digits
read_digits-value limit v [] d h = refl
read_digits-value limit v (c ∷ cs) d h = ground (
  arith,
  d,
  value_from_mono (v * 10 + (c - b'0')) cs,
  read_digits-value limit (v * 10 + (c - b'0')) cs d.1,
)

-- parse_positive_uint32 reads exactly the decimal texts of the numbers from 1 up to 2 ^ 32 - 1,
-- leading zeros allowed, in a primitive token that is not empty.
pub parse_positive_uint32_iff :
    (line : Bytes) (token : Token) (n : ℕ)
    → (parse_positive_uint32 line token ≡ some n) ↔ (
        (token.type ≡ primitive)
        × (token.start ≢ token.end)
        × All IsDigit (token_text line token)
        × (n ≡ value_from 0 (token_text line token))
        × (0 < n)
        × (n < 2 ^ 32))
unfolding parse_positive_uint32
parse_positive_uint32_iff line token n = (
  λ h. ground (arith, h, read_digits-some (2 ^ 32 - 1) 0 n (token_text line token) (omega arith)),
  λ h. ground (
    arith,
    h,
    read_digits-value (2 ^ 32 - 1) 0 (token_text line token) h.2 (omega (arith, h.3, h.5)),
  ),
)

-- A command id that the tester prints in decimal is read back as it was.
pub parse_positive_uint32-decimal :
    (line : Bytes) (token : Token) (n : ℕ)
    → token.type ≡ primitive
    → token.start ≢ token.end
    → token_text line token ≡ decimal n
    → 0 < n
    → n < 2 ^ 32
    → parse_positive_uint32 line token ≡ some n
parse_positive_uint32-decimal line token n p s t lo hi =
    (parse_positive_uint32_iff line token n).1
      (p, s, rw t (decimal-digits n), rw t (sym (value-decimal n)), lo, hi)

-- parse_uint8 reads exactly the decimal texts of the numbers up to 255, leading zeros allowed, in a
-- primitive token that is not empty.
pub parse_uint8_iff :
    (line : Bytes) (token : Token) (n : ℕ)
    → (parse_uint8 line token ≡ some n) ↔ (
        (token.type ≡ primitive)
        × (token.start ≢ token.end)
        × All IsDigit (token_text line token)
        × (n ≡ value_from 0 (token_text line token))
        × (n ≤ 255))
unfolding parse_uint8
parse_uint8_iff line token n = (
  λ h. ground (arith, h, read_digits-some (2 ^ 8 - 1) 0 n (token_text line token) (omega arith)),
  λ h. ground (
    arith,
    h,
    read_digits-value (2 ^ 8 - 1) 0 (token_text line token) h.2 (omega (arith, h.3, h.4)),
  ),
)
