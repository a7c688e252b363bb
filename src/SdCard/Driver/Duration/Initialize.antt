-- ===== src/SdCard/Driver/Duration/Initialize.antt =====
-- firmware/manufacturing_test/drivers/sd_card/sd_card_driver.c: how long the functions of the driver last;
-- with enough fuel none of them runs out of it.
use flight_computer_test.Base.{
  ℕ, ◌+◌, ◌*◌, ◌<◌, Bool, true, false, refl, Bytes, ltb, ◌==◌, ◌||◌, if◌then◌else◌, arith,
}
use flight_computer_test.Base.Text.{codes}
use flight_computer_test.Base.Int.{pos}
use flight_computer_test.Spi.{SpiDevice}
use flight_computer_test.SdCard.Csd.{sd_block_size, sd_card_parse_csd}
use flight_computer_test.SdCard.Driver.{pure, fail}
use flight_computer_test.SdCard.Driver.Exchange.{ready_timeout_ms}
use flight_computer_test.SdCard.Driver.Start.{
  use_csd, read_csd, go_idle, read_voltage, interface_condition, operating_condition,
  poll_operating_condition, wait_operating, read_ocr, set_block_length, read_information,
  identify_card, spi_baudrateprescaler_4, test_area_distance_from_end,
}
use flight_computer_test.SdCard.Driver.Duration.{
  Timed, Lasts, ◌▶◌, Lasts-wider, pure-Lasts, gets-Lasts, modify-Lasts, if-Lasts, require-Lasts,
  require_some-Lasts, fail-Lasts, begin_stage-Lasts, select-Lasts, set_prescaler-Lasts,
}
use flight_computer_test.SdCard.Driver.Duration.Waiting.{patience, wait-Lasts}
use flight_computer_test.SdCard.Driver.Duration.Transfers.{
  read_bytes-Lasts, command-Lasts, deselect_card-Lasts, expect_response-Lasts, deselect_fail-Lasts,
  else_deselect-Lasts, or_late, wait_for_data_token-Lasts, selected_command-Lasts,
}

module _ {H : Type 0} {device : SpiDevice H} {tick ns : H → ℕ} {step : ℕ}
    (timed : Timed device tick ns step) (fuel : ℕ) (enough : patience 1000 < fuel) where
  use_csd-Lasts : (csd : Bytes) → Lasts device ns 0 0 (use_csd csd)
  unfolding use_csd
  use_csd-Lasts csd = Lasts-wider (omega arith) (omega arith) (
      require_some-Lasts (sd_card_parse_csd csd) (fail-Lasts _ _) ▶ λ sectors.
      modify-Lasts _ (λ _. (refl, refl)) ▶ λ _.
      require-Lasts (ltb test_area_distance_from_end sectors) (fail-Lasts _ _))

  read_csd-Lasts : Lasts device ns 0 (patience 1500 + 50 * step) (read_csd tick fuel)
  unfolding read_csd
  read_csd-Lasts = Lasts-wider (omega arith) (omega arith) (
      begin_stage-Lasts _ ▶ λ _. selected_command-Lasts timed fuel 9 0 0xFF enough ▶ λ response.
      expect_response-Lasts timed response (response == 0) ▶ λ _.
      else_deselect-Lasts timed (
        wait_for_data_token-Lasts timed fuel (omega arith) ▶ λ _.
        read_bytes-Lasts timed 16 ▶ λ csd. read_bytes-Lasts timed 2 ▶ λ _. pure-Lasts csd)
      ▶ λ csd. deselect_card-Lasts timed ▶ λ _. use_csd-Lasts csd)

  go_idle-Lasts : Lasts device ns 0 (30 * step) go_idle
  unfolding go_idle
  go_idle-Lasts = Lasts-wider (omega arith) (omega arith) (
      begin_stage-Lasts _ ▶ λ _. select-Lasts timed ▶ λ got.
      require-Lasts got (fail-Lasts _ _) ▶ λ _.
      else_deselect-Lasts timed (command-Lasts timed 0 0 0x95) ▶ λ response.
      expect_response-Lasts timed response (response == 1) ▶ λ _. deselect_card-Lasts timed)

  read_voltage-Lasts : Lasts device ns 0 (10 * step) read_voltage
  unfolding read_voltage
  read_voltage-Lasts = Lasts-wider (omega arith) (omega arith) (
      else_deselect-Lasts timed (read_bytes-Lasts timed 4) ▶ λ r7.
      require-Lasts _ (deselect_fail-Lasts timed _ _) ▶ λ _. pure-Lasts true)

  interface_condition-Lasts :
      Lasts device ns 0 (patience 1000 + 50 * step) (interface_condition tick fuel)
  unfolding interface_condition
  interface_condition-Lasts = Lasts-wider (omega arith) (omega arith) (
      begin_stage-Lasts _ ▶ λ _. selected_command-Lasts timed fuel 8 0x1AA 0x87 enough ▶ λ response.
      if-Lasts (response == 1) read_voltage-Lasts (
        Lasts-wider (omega arith) (omega arith)
          (expect_response-Lasts timed response (response == 5) ▶ λ _. pure-Lasts false))
      ▶ λ version_two. deselect_card-Lasts timed ▶ λ _. pure-Lasts version_two)

  operating_condition-Lasts :
      (version_two : Bool)
      → Lasts device ns 1 (patience 1000 + 50 * step) (operating_condition tick fuel version_two)
  unfolding operating_condition
  operating_condition-Lasts version_two = Lasts-wider (omega arith) (omega arith) (
      begin_stage-Lasts _ ▶ λ _. selected_command-Lasts timed fuel 55 0 0xFF enough ▶ λ response.
      expect_response-Lasts timed response ((response == 0) || (response == 1)) ▶ λ _.
      begin_stage-Lasts _ ▶ λ _.
      else_deselect-Lasts timed
        (command-Lasts timed 41 (if version_two then 0x40000000 else 0) 0xFF)
      ▶ λ response. deselect_card-Lasts timed ▶ λ _.
          require-Lasts ((response == 0) || (response == 1)) (fail-Lasts _ _) ▶ λ _.
          pure-Lasts response)

  wait_operating-Lasts :
      (version_two : Bool)
      → Lasts device ns 0 (patience 2001 + 50 * step) (wait_operating tick fuel version_two)
  unfolding wait_operating poll_operating_condition
  wait_operating-Lasts version_two = Lasts-wider (omega arith) (omega arith) (
      wait-Lasts timed ready_timeout_ms (patience 1000 + 50 * step) fuel
        (operating_condition tick fuel version_two)
        (λ response more rest.
          let idle = fail (codes "card_stayed_idle_until_timeout") (pos response) in
          if response == 0 then pure tt else (if more then rest else idle))
        (λ started passes. poll_operating_condition tick fuel passes version_two started)
        (omega arith) (omega (arith, timed.short)) enough (operating_condition-Lasts version_two)
        (λ response more rest. or_late (response == 0) more tt rest (fail-Lasts _ _))
        (λ started n. refl))

  read_ocr-Lasts :
      (version_two : Bool)
      → Lasts device ns 0 (patience 1000 + 50 * step) (read_ocr tick fuel version_two)
  unfolding read_ocr
  read_ocr-Lasts version_two = Lasts-wider (omega arith) (omega arith) (
      begin_stage-Lasts _ ▶ λ _. selected_command-Lasts timed fuel 58 0 0xFF enough ▶ λ response.
      expect_response-Lasts timed response (response == 0) ▶ λ _.
      else_deselect-Lasts timed (read_bytes-Lasts timed 4) ▶ λ ocr.
      modify-Lasts _ (λ _. (refl, refl)) ▶ λ _. deselect_card-Lasts timed)

  set_block_length-Lasts :
      Lasts device ns 0 (patience 1000 + 50 * step) (set_block_length tick fuel)
  unfolding set_block_length
  set_block_length-Lasts = Lasts-wider (omega arith) (omega arith) (
      begin_stage-Lasts _ ▶ λ _.
      selected_command-Lasts timed fuel 16 sd_block_size 0xFF enough ▶ λ response.
      expect_response-Lasts timed response (response == 0) ▶ λ _. deselect_card-Lasts timed)

  read_information-Lasts :
      Lasts device ns 0 (patience 1500 + 50 * step) (read_information tick fuel)
  unfolding read_information
  read_information-Lasts = Lasts-wider (omega arith) (omega arith) (
      modify-Lasts _ (λ _. (refl, refl)) ▶ λ _.
      read_csd-Lasts ▶ λ _. modify-Lasts _ (λ _. (refl, refl)))

  pub identify_card-Lasts : Lasts device ns 0 (patience 7500 + 400 * step) (identify_card tick fuel)
  unfolding identify_card
  identify_card-Lasts = Lasts-wider (omega arith) (omega arith) (
      go_idle-Lasts ▶ λ _. interface_condition-Lasts ▶ λ version_two.
      wait_operating-Lasts version_two ▶ λ _. read_ocr-Lasts version_two ▶ λ _.
      gets-Lasts _ ▶ λ high_capacity.
      if-Lasts high_capacity (Lasts-wider (omega arith) (omega arith) (pure-Lasts tt))
        set_block_length-Lasts
      ▶ λ _. read_information-Lasts ▶ λ _. begin_stage-Lasts _ ▶ λ _.
          set_prescaler-Lasts timed spi_baudrateprescaler_4 ▶ λ raised.
          require-Lasts raised (fail-Lasts _ _))
