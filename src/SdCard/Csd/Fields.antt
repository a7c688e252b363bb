-- ===== src/SdCard/Csd/Fields.antt =====
-- firmware/manufacturing_test/drivers/sd_card/sd_card_csd.c: the register as one number of 128 bits,
-- whose fields are ranges of bits, as the SD specification gives them.
use flight_computer_test.Base.{
  ℕ, zero, suc, ◌+◌, ◌-◌, ◌*◌, ◌/◌, ◌%◌, ◌^◌, ◌<◌, ◌≡◌, ap, ap₂, sym, ◌∙◌, Option, none, some,
  Bytes, length, get_or, All, All-get_or, ◌==◌, if◌then◌else◌, arith,
}
use flight_computer_test.SdCard.Csd.{
  c_size_2, c_size_1, c_mult_1, read_length_1, sd_card_parse_csd, capacity_1-fits,
}

-- The first `n` bytes as a number, the first byte the highest.
abbrev pub number : ℕ → Bytes → ℕ
number zero csd = 0
number (suc n) csd = number n csd * 256 + get_or csd n 0

-- The bits from `high` down to `low`, bit 0 the last of the register.
abbrev pub bits : ℕ → ℕ → Bytes → ℕ
bits high low csd = number 16 csd / 2 ^ low % 2 ^ (high + 1 - low)

abbrev pub IsRegister : Bytes → Type 0
IsRegister csd = (length csd ≡ 16) × All (λ b. b < 256) csd

-- The sectors of 512 bytes that a register stands for: CSD_STRUCTURE is bits 127:126; structure 0 has
-- C_SIZE in bits 73:62, C_SIZE_MULT in 49:47 and READ_BL_LEN in 83:80, structure 1 C_SIZE in 69:48.
abbrev pub sectors_of : Bytes → Option ℕ
sectors_of csd =
    if bits 127 126 csd == 0
    then some ((bits 73 62 csd + 1) * 2 ^ (bits 49 47 csd + 2 + bits 83 80 csd) / 512)
    else if bits 127 126 csd == 1
    then some ((bits 69 48 csd + 1) * 1024)
    else none

-- The order of the tests on the structure does not matter.
by_structure :
    (s s' a a' b b' : ℕ)
    → s ≡ s'
    → a ≡ a'
    → b ≡ b'
    → (if s == 1 then some a else if s == 0 then some b else none)
      ≡ (if s' == 0 then some b' else if s' == 1 then some a' else none)
by_structure s s' a a' b b' e f g = rw (e, f, g) (ground arith)

module _ (csd : Bytes) (register : IsRegister csd) where
  byte : (i : ℕ) → i < 16 → get_or csd i 0 < 256
  byte i h = All-get_or (λ b. b < 256) csd i 0 (omega (arith, register.0)) register.1

  -- The bytes behind the fields, and those of the fields.
  last_bytes : number 16 csd / 2 ^ 48 ≡ number 10 csd
  last_bytes = omega (
    arith,
    byte 10 (omega arith),
    byte 11 (omega arith),
    byte 12 (omega arith),
    byte 13 (omega arith),
    byte 14 (omega arith),
    byte 15 (omega arith),
  )

  structure_bits : bits 127 126 csd ≡ get_or csd 0 0 / 2 ^ 6
  structure_bits = omega (
    arith,
    byte 0 (omega arith),
    byte 1 (omega arith),
    byte 2 (omega arith),
    byte 3 (omega arith),
    byte 4 (omega arith),
    byte 5 (omega arith),
    byte 6 (omega arith),
    byte 7 (omega arith),
    byte 8 (omega arith),
    byte 9 (omega arith),
    byte 10 (omega arith),
    byte 11 (omega arith),
    byte 12 (omega arith),
    byte 13 (omega arith),
    byte 14 (omega arith),
    byte 15 (omega arith),
  )

  c_size_2-bits : c_size_2 csd ≡ bits 69 48 csd
  c_size_2-bits = omega (arith, last_bytes, byte 8 (omega arith), byte 9 (omega arith))

  c_size_1-bits : c_size_1 csd ≡ bits 73 62 csd
  c_size_1-bits = omega (
    arith,
    byte 7 (omega arith),
    byte 8 (omega arith),
    byte 9 (omega arith),
    byte 10 (omega arith),
    byte 11 (omega arith),
    byte 12 (omega arith),
    byte 13 (omega arith),
    byte 14 (omega arith),
    byte 15 (omega arith),
  )

  c_mult_1-bits : c_mult_1 csd ≡ bits 49 47 csd
  c_mult_1-bits = omega (
    arith,
    byte 10 (omega arith),
    byte 11 (omega arith),
    byte 12 (omega arith),
    byte 13 (omega arith),
    byte 14 (omega arith),
    byte 15 (omega arith),
  )

  read_length_1-bits : read_length_1 csd ≡ bits 83 80 csd
  read_length_1-bits = omega (
    arith,
    byte 6 (omega arith),
    byte 7 (omega arith),
    byte 8 (omega arith),
    byte 9 (omega arith),
    byte 10 (omega arith),
    byte 11 (omega arith),
    byte 12 (omega arith),
    byte 13 (omega arith),
    byte 14 (omega arith),
    byte 15 (omega arith),
  )

  -- sd_card_parse_csd agrees with the fields of the specification on every register of 16 bytes, and
  -- no sum or shift of it wraps.
  pub sd_card_parse_csd-sectors_of : sd_card_parse_csd csd ≡ sectors_of csd
  unfolding sd_card_parse_csd
  sd_card_parse_csd-sectors_of =
      let (fits, _) =
        capacity_1-fits (c_size_1 csd + 1) (c_mult_1 csd + 2 + read_length_1 csd)
          (omega (arith, byte 7 (omega arith), byte 8 (omega arith)))
          (omega (arith, byte 10 (omega arith))) in
      let blocks : c_size_1 csd + 1 ≡ bits 73 62 csd + 1 = ap (λ n. n + 1) c_size_1-bits in
      let exponent : c_mult_1 csd + 2 + read_length_1 csd ≡ bits 49 47 csd + 2 + bits 83 80 csd =
        ap₂ (λ m r. m + 2 + r) c_mult_1-bits read_length_1-bits in
      let wide : (c_size_2 csd + 1) % 2 ^ 32 * 1024 % 2 ^ 64 ≡ (c_size_2 csd + 1) * 1024 =
        omega (arith, byte 8 (omega arith), byte 9 (omega arith)) in
      by_structure (get_or csd 0 0 / 2 ^ 6) (bits 127 126 csd) _ _ _ _ (sym structure_bits)
        (wide ∙ ap (λ n. (n + 1) * 1024) c_size_2-bits)
        (ap (λ n. n / 512) fits ∙ ap₂ (λ b e. b * 2 ^ e / 512) blocks exponent)
