-- ===== src/SdCard/Driver/Exchange.antt =====
-- firmware/manufacturing_test/drivers/sd_card/sd_card_driver.c: bytes, commands and responses on the
-- bus. `tick` is HAL_GetTick; each wait polls with fuel.
use flight_computer_test.Base.{
  ℕ, zero, suc, ◌+◌, ◌-◌, ◌*◌, ◌/◌, ◌%◌, ◌^◌, Bool, [], ◌∷◌, Bytes, ltb, ◌==◌, ◌&&◌, get_or,
  if◌then◌else◌,
}
use flight_computer_test.Base.Int.{pos}
use flight_computer_test.Base.Text.{codes}
use flight_computer_test.SdCard.Csd.{sd_block_size}
use flight_computer_test.SdCard.Driver.{
  SdCardDriver, Action, pure, gets, give_up, stop, failed, ok, out_of_fuel, ◌>>=◌, ◌>>◌, require,
  require_some, fail, fail_if_unset, device_select, device_deselect, device_transfer,
}

-- SD_RESPONSE_ATTEMPTS, SD_READY_TIMEOUT_MS, SD_DATA_TIMEOUT_MS and SD_DATA_START_TOKEN
abbrev pub response_attempts : ℕ
response_attempts = 16

abbrev pub ready_timeout_ms : ℕ
ready_timeout_ms = 1000

abbrev pub data_timeout_ms : ℕ
data_timeout_ms = 250

abbrev pub data_start_token : ℕ
data_start_token = 0xFE

-- The six bytes of a command on the bus.
unfoldable pub command_frame : ℕ → ℕ → ℕ → Bytes
command_frame index argument crc =
    (64 + index)
    ∷ argument / 2 ^ 24 % 2 ^ 8
    ∷ argument / 2 ^ 16 % 2 ^ 8
    ∷ argument / 2 ^ 8 % 2 ^ 8
    ∷ argument % 2 ^ 8
    ∷ crc
    ∷ []

module _ {H : Type 0} where
  unfoldable pub transfer_byte : ℕ → Action H ℕ
  transfer_byte transmitted = do
    received ← device_transfer (transmitted ∷ [])
    bytes ← require_some received (fail_if_unset (codes "spi_transfer_failed") (pos 0))
    pure (get_or bytes 0 0 % 2 ^ 8)

  unfoldable pub clock_bytes : ℕ → ℕ → Action H (Unit {0})
  clock_bytes value zero = pure tt
  clock_bytes value (suc count) = transfer_byte value >>= λ _. clock_bytes value count

  unfoldable pub read_bytes : ℕ → Action H Bytes
  read_bytes zero = pure []
  read_bytes (suc length) = do
    byte ← transfer_byte 0xFF
    rest ← read_bytes length
    pure (byte ∷ rest)

  -- The loop of `command` that waits for a response, and `command`
  unfoldable pub await_response : ℕ → Action H ℕ
  await_response zero = fail_if_unset (codes "no_r1_response") (pos 0xFF)
  await_response (suc attempts) = do
    response ← transfer_byte 0xFF
    if ltb response 128 then pure response else await_response attempts

  unfoldable pub command : ℕ → ℕ → ℕ → Action H ℕ
  command index argument crc = do
    discarded ← device_transfer (command_frame index argument crc)
    _ ← require_some discarded (fail_if_unset (codes "command_frame_transfer_failed") (pos index))
    await_response response_attempts

  unfoldable pub wire_address : ℕ → SdCardDriver H → ℕ
  wire_address sector s = if s.high_capacity then sector else sector * sd_block_size % 2 ^ 32

  unfoldable pub deselect_card : Action H (Unit {0})
  deselect_card = device_deselect >> device_transfer (0xFF ∷ []) >>= λ _. pure tt

  -- `deselect_card(); return false;` where a part of a function fails
  unfoldable pub else_deselect : {A : Type 0} → Action H A → Action H A
  else_deselect m s =
      let (r, s') = m s in
      elim r [
        | ok a ↦ (ok a, s')
        | failed ↦ (deselect_card >> give_up) s'
        | out_of_fuel ↦ (out_of_fuel, s')
      ]

  -- A response R1 that is not the expected one.
  unfoldable pub expect_response : ℕ → Bool → Action H (Unit {0})
  expect_response response expected =
      require expected (deselect_card >> fail (codes "unexpected_r1_response") (pos response))

  module _ (tick : H → ℕ) where
    -- HAL_GetTick() - started, compared with a timeout
    unfoldable pub within : ℕ → ℕ → SdCardDriver H → Bool
    within started timeout s = ltb ((tick s.hardware + 2 ^ 32 - started) % 2 ^ 32) timeout

    -- The loop of wait_ready, and wait_ready
    unfoldable pub poll_ready : ℕ → ℕ → ℕ → Action H (Unit {0})
    poll_ready zero timeout started = stop
    poll_ready (suc fuel) timeout started = do
      value ← transfer_byte 0xFF
      more ← gets (within started timeout)
      let again = poll_ready fuel timeout started
      let late = fail_if_unset (codes "card_busy_timeout") (pos value)
      if value == 0xFF then pure tt else (if more then again else late)

    unfoldable pub wait_ready : ℕ → ℕ → Action H (Unit {0})
    wait_ready fuel timeout = do
      started ← gets (λ s. tick s.hardware)
      poll_ready fuel timeout started

    -- The loop of wait_for_data_token, and wait_for_data_token
    unfoldable pub poll_token : ℕ → ℕ → Action H ℕ
    poll_token zero started = stop
    poll_token (suc fuel) started = do
      token ← transfer_byte 0xFF
      more ← gets (within started data_timeout_ms)
      if (token == 0xFF) && more then poll_token fuel started else pure token

    unfoldable pub wait_for_data_token : ℕ → Action H (Unit {0})
    wait_for_data_token fuel = do
      started ← gets (λ s. tick s.hardware)
      token ← poll_token fuel started
      require (token == data_start_token)
          (fail_if_unset (codes "unexpected_data_token") (pos token))

    unfoldable pub select_card : ℕ → Action H (Unit {0})
    select_card fuel = do
      selected ← device_select
      require selected (fail_if_unset (codes "card_select_failed") (pos 0))
      wait_ready fuel ready_timeout_ms
