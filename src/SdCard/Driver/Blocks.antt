-- ===== src/SdCard/Driver/Blocks.antt =====
-- firmware/manufacturing_test/drivers/sd_card/sd_card_driver.c: the sectors of the test area, and the
-- driver as the interface that the component test calls.
use flight_computer_test.Base.{
  ℕ, zero, suc, ◌+◌, ◌-◌, ◌*◌, ◌/◌, ◌%◌, ◌^◌, Bool, true, false, Option, none, some, Bytes, ltb,
  ◌==◌, [], ◌∷◌, not, ◌||◌, replicate, bytes_equal, if◌then◌else◌,
}
use Prim.Native.Nat.{bit_xor}
use flight_computer_test.Base.Int.{ℤ, pos, negsuc}
use flight_computer_test.Base.Text.{codes}
use flight_computer_test.Spi.{SpiDevice}
use flight_computer_test.SdCard.Csd.{sd_block_size}
use flight_computer_test.SdCard.Component.{SdCardInformation, Driver, test_block_count}
use flight_computer_test.SdCard.Driver.{
  SdCardDriver, Action, Outcome, pure, gets, modify, failed, ok, out_of_fuel, ◌>>=◌, ◌>>◌, require,
  require_some, begin_stage, fail, device_transfer,
}
use flight_computer_test.SdCard.Driver.Exchange.{
  transfer_byte, read_bytes, wire_address, deselect_card, else_deselect, expect_response,
  wait_ready, wait_for_data_token, ready_timeout_ms, data_start_token,
}
use flight_computer_test.SdCard.Driver.Start.{
  clear_failure, selected_command, sd_card_driver_initialize,
}

-- SD_DATA_ACCEPTED
abbrev pub data_accepted : ℕ
data_accepted = 0x05

-- The loops of checksum_update, and checksum_update
abbrev pub shift_checksum : ℕ → ℕ
shift_checksum checksum = bit_xor (checksum / 2) (if checksum % 2 == 1 then 0xEDB88320 else 0)

abbrev pub shift_bits : ℕ → ℕ → ℕ
shift_bits zero checksum = checksum
shift_bits (suc bits) checksum = shift_bits bits (shift_checksum checksum)

unfoldable pub checksum_update : ℕ → Bytes → ℕ
checksum_update checksum [] = checksum
checksum_update checksum (byte ∷ buffer) =
    checksum_update (shift_bits 8 (bit_xor checksum byte)) buffer

-- `~` on 32 bits
abbrev pub complement : ℕ → ℕ
complement n = 2 ^ 32 - 1 - n

-- The conversion of uint32_t to int32_t
abbrev pub to_int32 : ℕ → ℤ
to_int32 n = if ltb n (2 ^ 31) then pos n else negsuc (2 ^ 32 - 1 - n)

-- The bytes of `pattern` from an index on, and `pattern`
unfoldable pub pattern_from : ℕ → ℕ → ℕ → Bytes
pattern_from sector index zero = []
pattern_from sector index (suc count) =
    (sector + index * 37) % 2 ^ 8 ∷ pattern_from sector (index + 1) count

unfoldable pub pattern : ℕ → Bytes
pattern sector = pattern_from sector 0 sd_block_size

-- The outcome of an action as the C functions return it. One that runs out of fuel counts as one
-- that returned false.
abbrev pub succeeds : Outcome (Unit {0}) → Bool
succeeds (ok _) = true
succeeds failed = false
succeeds out_of_fuel = false

module _ {H : Type 0} where
  -- `information->test_sector + block`
  abbrev pub block_sector : ℕ → SdCardDriver H → ℕ
  block_sector block s = (s.information.test_sector + block) % 2 ^ 32

  abbrev pub set_write_checksum : ℕ → SdCardDriver H → SdCardDriver H
  set_write_checksum checksum s = record s { write_checksum = checksum }

  abbrev pub set_verify_checksum : ℕ → SdCardDriver H → SdCardDriver H
  set_verify_checksum checksum s = record s { verify_checksum = checksum }

  abbrev pub set_checksum : ℕ → SdCardDriver H → SdCardDriver H
  set_checksum checksum s = record s { information = record s.information { checksum = checksum } }

  -- The start of the three operations on a block: a stage, and the checks of the arguments
  unfoldable pub begin_block : Bytes → Option SdCardInformation → ℕ → Action H (Unit {0})
  begin_block stage destination block = do
    clear_failure
    begin_stage stage
    information ← require_some destination (fail (codes "invalid_block_argument") (to_int32 block))
    modify (λ s. record s { information = information })
    require (ltb block test_block_count) (fail (codes "invalid_block_argument") (to_int32 block))

  unfoldable pub sd_card_driver_shutdown : Action H (Unit {0})
  sd_card_driver_shutdown s = elim s.device [ none ↦ (ok tt, s) | some _ ↦ deselect_card s ]

  abbrev pub run_action :
      Action H (Unit {0}) → SdCardDriver H → Bool × SdCardInformation × SdCardDriver H
  run_action m s = let (r, s') = m s in (succeeds r, s'.information, s')

  abbrev pub run_check : Action H (Unit {0}) → SdCardDriver H → Bool × SdCardDriver H
  run_check m s = let (r, s') = m s in (succeeds r, s')

  module _ (tick : H → ℕ) (fuel : ℕ) where
    -- The part of write_block that sends the data and its token, and takes the card's answer
    unfoldable pub send_data : Bytes → Action H (Unit {0})
    send_data buffer = do
      else_deselect (wait_ready tick fuel ready_timeout_ms)
      _ ← else_deselect (transfer_byte data_start_token)
      discarded ← device_transfer buffer
      _ ←
          require_some discarded
            (deselect_card >> fail (codes "sector_data_transfer_failed") (pos 0))
      crc ← else_deselect (read_bytes 2)
      response ← else_deselect (transfer_byte 0xFF)
      require (response % 32 == data_accepted)
          (deselect_card >> fail (codes "write_rejected_data_response") (pos (response % 32)))
      else_deselect (wait_ready tick fuel ready_timeout_ms)

    unfoldable pub write_block : ℕ → Bytes → Action H (Unit {0})
    write_block sector buffer = do
      address ← gets (wire_address sector)
      response ← selected_command tick fuel 24 address 0xFF
      expect_response response (response == 0)
      send_data buffer
      deselect_card

    unfoldable pub read_block : ℕ → Action H Bytes
    read_block sector = do
      address ← gets (wire_address sector)
      response ← selected_command tick fuel 17 address 0xFF
      expect_response response (response == 0)
      buffer ← else_deselect (do
        wait_for_data_token tick fuel
        buffer ← read_bytes sd_block_size
        _ ← read_bytes 2
        pure buffer)
      deselect_card
      pure buffer

    unfoldable pub sd_card_driver_write_test_block :
        Option SdCardInformation → ℕ → Action H (Unit {0})
    sd_card_driver_write_test_block destination block = do
      begin_block (codes "cmd24_write_test_sector") destination block
      before ← gets (λ s. if block == 0 then 0xFFFFFFFF else s.write_checksum)
      sector ← gets (block_sector block)
      let checksum = checksum_update before (pattern sector)
      modify (set_write_checksum checksum)
      write_block sector (pattern sector)
      if block == test_block_count - 1 then modify (set_checksum (complement checksum)) else pure tt

    unfoldable pub sd_card_driver_verify_test_block :
        Option SdCardInformation → ℕ → Action H (Unit {0})
    sd_card_driver_verify_test_block destination block = do
      begin_block (codes "cmd17_read_test_sector") destination block
      before ← gets (λ s. if block == 0 then 0xFFFFFFFF else s.verify_checksum)
      modify (set_verify_checksum before)
      sector ← gets (block_sector block)
      received ← read_block sector
      require (bytes_equal (pattern sector) received)
          (fail (codes "read_back_mismatch") (to_int32 block))
      let checksum = checksum_update before received
      modify (set_verify_checksum checksum)
      expected ← gets (λ s. s.information.checksum)
      require (not (block == test_block_count - 1) || (complement checksum == expected))
          (fail (codes "checksum_mismatch") (to_int32 (complement checksum)))

    unfoldable pub sd_card_driver_clear_test_block :
        Option SdCardInformation → ℕ → Action H (Unit {0})
    sd_card_driver_clear_test_block destination block = do
      begin_block (codes "cmd24_clear_test_sector") destination block
      sector ← gets (block_sector block)
      write_block sector (replicate sd_block_size 0)

    -- The driver that sd_card_test.c calls, with its own structure as the destination.
    unfoldable pub sd_card_driver : Option (SpiDevice H) → (H → Bool) → Driver (SdCardDriver H)
    sd_card_driver sd_device card_inserted = record {
      initialize = λ i. run_action (sd_card_driver_initialize tick fuel sd_device (some i));
      write_test_block = λ i block. run_action (sd_card_driver_write_test_block (some i) block);
      verify_test_block = λ i block. run_check (sd_card_driver_verify_test_block (some i) block);
      clear_test_block = λ i block. run_check (sd_card_driver_clear_test_block (some i) block);
      shutdown = λ s. (sd_card_driver_shutdown s).1;
      last_failure = λ s. s.last_failure;
      tick = λ s. tick s.hardware;
      card_inserted = λ s. card_inserted s.hardware;
    }
