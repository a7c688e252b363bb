-- ===== src/SdCard/Csd.antt =====
-- firmware/manufacturing_test/drivers/sd_card/sd_card_csd.c: the number of sectors of a card, read
-- from its 16-byte CSD register. No caller passes a null pointer.
pub mod Fields
use native.Mathlib.Nat.{mod-eq_of_lt, mul-le-mul, pow-le-pow_right}
use flight_computer_test.Base.{
  ℕ, ◌+◌, ◌*◌, ◌/◌, ◌%◌, ◌^◌, ◌≤◌, ◌<◌, ◌≡◌, ap, Option, none, some, ◌∷◌, Bytes, length, get_or,
  replicate, All, All-get_or, ◌==◌, if◌then◌else◌, arith,
}

-- SD_BLOCK_SIZE
abbrev pub sd_block_size : ℕ
sd_block_size = 512

-- The fields of the register that the two structures use.
abbrev pub c_size_2 : Bytes → ℕ
c_size_2 csd = (get_or csd 7 0 % 64) * 2 ^ 16 + get_or csd 8 0 * 2 ^ 8 + get_or csd 9 0

abbrev pub c_size_1 : Bytes → ℕ
c_size_1 csd = (get_or csd 6 0 % 4) * 2 ^ 10 + get_or csd 7 0 * 2 ^ 2 + get_or csd 8 0 / 2 ^ 6

abbrev pub c_mult_1 : Bytes → ℕ
c_mult_1 csd = (get_or csd 9 0 % 4) * 2 + get_or csd 10 0 / 2 ^ 7

abbrev pub read_length_1 : Bytes → ℕ
read_length_1 csd = get_or csd 5 0 % 16

-- sd_card_parse_csd
unfoldable pub sd_card_parse_csd : Bytes → Option ℕ
sd_card_parse_csd csd =
    let structure = get_or csd 0 0 / 2 ^ 6 in
    if structure == 1
    then some ((c_size_2 csd + 1) % 2 ^ 32 * 1024 % 2 ^ 64)
    else if structure == 0
    then some (
        (c_size_1 csd + 1)
        % 2 ^ 32
        * 2 ^ (c_mult_1 csd + 2 + read_length_1 csd)
        % 2 ^ 64
        / sd_block_size)
    else none

-- The widest capacity of the first structure stays far below 2 ^ 64.
pub capacity_1-fits :
    (blocks exponent : ℕ)
    → blocks ≤ 2 ^ 12
    → exponent ≤ 24
    → (blocks % 2 ^ 32 * 2 ^ exponent % 2 ^ 64 ≡ blocks * 2 ^ exponent)
      × (blocks * 2 ^ exponent ≤ 2 ^ 36)
capacity_1-fits blocks exponent b e =
    let bound : blocks * 2 ^ exponent ≤ 2 ^ 36 =
      omega (arith, mul-le-mul b (pow-le-pow_right {n = 2} (omega arith) e)) in
    let small : blocks % 2 ^ 32 ≡ blocks = omega arith in
    (rw small (mod-eq_of_lt (omega (arith, bound))), bound)

-- What may be read from a register.
abbrev pub Reads : Bytes → Option ℕ → Type 0
Reads csd none = 2 ≤ get_or csd 0 0 / 2 ^ 6
Reads csd (some sectors) = (get_or csd 0 0 / 2 ^ 6 ≤ 1) × (sectors ≤ 2 ^ 32)

-- Whatever 16 bytes a card sends: the structures 2 and 3 are refused, and any other register gives
-- at most 2 ^ 32 sectors, so that the test's sectors before the end have 32-bit numbers.
pub sd_card_parse_csd-Reads :
    (csd : Bytes) → length csd ≡ 16 → All (λ b. b < 256) csd → Reads csd (sd_card_parse_csd csd)
unfolding sd_card_parse_csd
sd_card_parse_csd-Reads csd l bytes =
    let byte = λ (i : ℕ) (h : i < 16). All-get_or (λ b. b < 256) csd i 0 (omega arith) bytes in
    let (fits, bound) =
      capacity_1-fits (c_size_1 csd + 1) (c_mult_1 csd + 2 + read_length_1 csd)
        (omega (arith, byte 7 (omega arith), byte 8 (omega arith)))
        (omega (arith, byte 10 (omega arith))) in
    ground (arith, fits, bound, byte 8 (omega arith), byte 9 (omega arith))
