-- ===== src/SdCard/Driver/Start.antt =====
-- firmware/manufacturing_test/drivers/sd_card/sd_card_driver.c: read_csd and the steps of
-- sd_card_driver_initialize, each numbered comment of the function as an action.
use flight_computer_test.Base.{
  ℕ, zero, suc, ◌+◌, ◌-◌, ◌*◌, ◌/◌, ◌%◌, ◌^◌, Bool, true, false, Option, none, Bytes, ltb, ◌==◌,
  ◌&&◌, ◌||◌, get_or, if◌then◌else◌,
}
use flight_computer_test.Base.Int.{pos}
use flight_computer_test.Base.Text.{codes}
use flight_computer_test.Spi.{SpiDevice}
use flight_computer_test.SdCard.Csd.{sd_block_size, sd_card_parse_csd}
use flight_computer_test.SdCard.Component.{SdCardInformation, SdCardFailure}
use flight_computer_test.SdCard.Driver.{
  SdCardDriver, Action, pure, gets, modify, stop, ◌>>=◌, ◌>>◌, require, require_some, begin_stage,
  fail, device_initialize, device_select, device_set_prescaler,
}
use flight_computer_test.SdCard.Driver.Exchange.{
  clock_bytes, read_bytes, command, deselect_card, else_deselect, expect_response, within,
  wait_for_data_token, select_card, ready_timeout_ms,
}

-- SD_TEST_AREA_DISTANCE_FROM_END, and SPI_BAUDRATEPRESCALER_4
abbrev pub test_area_distance_from_end : ℕ
test_area_distance_from_end = 16

abbrev pub spi_baudrateprescaler_4 : ℕ
spi_baudrateprescaler_4 = 8

abbrev pub blank_failure : SdCardFailure
blank_failure = record { stage = none; reason = none; code = pos 0 }

module _ {H : Type 0} where
  abbrev pub clear_failure : Action H (Unit {0})
  clear_failure = modify (λ s. record s { last_failure = blank_failure })

  abbrev pub set_sector_count : ℕ → SdCardDriver H → SdCardDriver H
  set_sector_count sectors s = record s {
    information = record s.information { sector_count = sectors };
  }

  -- The end of read_csd, on the card's register
  unfoldable pub use_csd : Bytes → Action H (Unit {0})
  use_csd csd = do
    sectors ←
        require_some (sd_card_parse_csd csd) (fail (codes "invalid_csd") (pos (get_or csd 0 0)))
    modify (set_sector_count sectors)
    require (ltb test_area_distance_from_end sectors) (fail (codes "card_too_small") (pos 0))

  -- Step 2: CMD0
  unfoldable pub go_idle : Action H (Unit {0})
  go_idle = do
    begin_stage (codes "cmd0_go_idle")
    selected ← device_select
    require selected (fail (codes "card_select_failed") (pos 0))
    response ← else_deselect (command 0 0 0x95)
    expect_response response (response == 1)
    deselect_card

  -- The part of step 3 for a card of version two
  unfoldable pub read_voltage : Action H Bool
  read_voltage = do
    r7 ← else_deselect (read_bytes 4)
    let value = get_or r7 2 0 * 2 ^ 8 + get_or r7 3 0
    let expected = (get_or r7 2 0 == 1) && (get_or r7 3 0 == 0xAA)
    require expected
        (deselect_card >> fail (codes "invalid_r7_voltage_or_check_pattern") (pos value))
    pure true

  -- What step 7 tells the caller
  abbrev pub set_capacity_kind : SdCardDriver H → SdCardDriver H
  set_capacity_kind s = record s {
    information = record s.information { high_capacity = s.high_capacity };
  }

  abbrev pub set_test_sector : SdCardDriver H → SdCardDriver H
  set_test_sector s =
      let sectors = s.information.sector_count in
      record s {
        information = record s.information {
          test_sector = (sectors + 2 ^ 64 - test_area_distance_from_end) % 2 ^ 64 % 2 ^ 32;
        };
      }

  module _ (tick : H → ℕ) (fuel : ℕ) where
    -- `if (!select_card() || !command(...)) { deselect_card(); return false; }`
    unfoldable pub selected_command : ℕ → ℕ → ℕ → Action H ℕ
    selected_command index argument crc =
        else_deselect (select_card tick fuel >> command index argument crc)

    unfoldable pub read_csd : Action H (Unit {0})
    read_csd = do
      begin_stage (codes "cmd9_read_csd")
      response ← selected_command 9 0 0xFF
      expect_response response (response == 0)
      csd ←
          else_deselect
            (do wait_for_data_token tick fuel; csd ← read_bytes 16; _ ← read_bytes 2; pure csd)
      deselect_card
      use_csd csd

    -- Step 3: CMD8
    unfoldable pub interface_condition : Action H Bool
    interface_condition = do
      begin_stage (codes "cmd8_interface_condition")
      response ← selected_command 8 0x1AA 0x87
      version_two ←
          if response == 1
          then read_voltage
          else expect_response response (response == 5) >> pure false
      deselect_card
      pure version_two

    -- One pass of the loop of step 4: CMD55 and ACMD41, and the response to the latter
    unfoldable pub operating_condition : Bool → Action H ℕ
    operating_condition version_two = do
      begin_stage (codes "cmd55_application_prefix")
      application_response ← selected_command 55 0 0xFF
      expect_response application_response
          ((application_response == 0) || (application_response == 1))
      begin_stage (codes "acmd41_initialize")
      response ← else_deselect (command 41 (if version_two then 0x40000000 else 0) 0xFF)
      deselect_card
      require ((response == 0) || (response == 1))
          (fail (codes "unexpected_r1_response") (pos response))
      pure response

    -- Step 4, whose loop has fuel of its own
    unfoldable pub poll_operating_condition : ℕ → Bool → ℕ → Action H (Unit {0})
    poll_operating_condition zero version_two started = stop
    poll_operating_condition (suc passes) version_two started = do
      response ← operating_condition version_two
      more ← gets (within tick started ready_timeout_ms)
      let again = poll_operating_condition passes version_two started
      let idle = fail (codes "card_stayed_idle_until_timeout") (pos response)
      if response == 0 then pure tt else (if more then again else idle)

    unfoldable pub wait_operating : Bool → Action H (Unit {0})
    wait_operating version_two = do
      started ← gets (λ s. tick s.hardware)
      poll_operating_condition fuel version_two started

    -- Step 5: CMD58
    unfoldable pub read_ocr : Bool → Action H (Unit {0})
    read_ocr version_two = do
      begin_stage (codes "cmd58_read_ocr")
      response ← selected_command 58 0 0xFF
      expect_response response (response == 0)
      ocr ← else_deselect (read_bytes 4)
      let ccs = get_or ocr 0 0 / 64 % 2 == 1
      modify (λ s. record s { high_capacity = version_two && ccs })
      deselect_card

    -- Step 6: CMD16, for a card with byte addresses
    unfoldable pub set_block_length : Action H (Unit {0})
    set_block_length = do
      begin_stage (codes "cmd16_set_block_length")
      response ← selected_command 16 sd_block_size 0xFF
      expect_response response (response == 0)
      deselect_card

    -- Step 7: CMD9
    unfoldable pub read_information : Action H (Unit {0})
    read_information = do modify set_capacity_kind; read_csd; modify set_test_sector

    -- Steps 2 to 8, once the bus works
    unfoldable pub identify_card : Action H (Unit {0})
    identify_card = do
      go_idle
      version_two ← interface_condition
      wait_operating version_two
      read_ocr version_two
      high_capacity ← gets (λ s. s.high_capacity)
      if high_capacity then pure tt else set_block_length
      read_information
      begin_stage (codes "spi_high_speed")
      raised ← device_set_prescaler spi_baudrateprescaler_4
      require raised (fail (codes "spi_prescaler_change_failed") (pos 0))

    -- sd_card_driver_initialize, where `sd_device` is flightcomputer_v1_sd_spi_device()
    module _ (sd_device : Option (SpiDevice H)) where
      unfoldable pub sd_card_driver_initialize : Option SdCardInformation → Action H (Unit {0})
      sd_card_driver_initialize destination = do
        clear_failure
        begin_stage (codes "arguments")
        information ← require_some destination (fail (codes "null_information_destination") (pos 0))
        begin_stage (codes "spi_initialization")
        modify (λ s. record s { device = sd_device; information = information })
        working ← device_initialize
        require working (fail (codes "spi_initialization_failed") (pos 0))
        begin_stage (codes "initial_clocks")
        clock_bytes 0xFF 10
        identify_card
