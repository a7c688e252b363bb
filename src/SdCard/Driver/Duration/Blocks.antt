-- ===== src/SdCard/Driver/Duration/Blocks.antt =====
-- firmware/manufacturing_test/drivers/sd_card/sd_card_driver.c: how long the operations on blocks last.
use flight_computer_test.Base.{
  ℕ, ◌+◌, ◌*◌, ◌<◌, ◌%◌, ◌-◌, refl, Option, Bytes, ltb, ◌==◌, replicate, bytes_equal, arith,
}
use flight_computer_test.Spi.{SpiDevice}
use flight_computer_test.SdCard.Csd.{sd_block_size}
use flight_computer_test.SdCard.Component.{SdCardInformation, test_block_count}
use flight_computer_test.SdCard.Driver.Exchange.{ready_timeout_ms, data_start_token}
use flight_computer_test.SdCard.Driver.Blocks.{
  data_accepted, send_data, write_block, read_block, begin_block, sd_card_driver_write_test_block,
  sd_card_driver_verify_test_block, sd_card_driver_clear_test_block, pattern,
}
use flight_computer_test.SdCard.Driver.Duration.{
  Timed, Lasts, ◌▶◌, Lasts-wider, pure-Lasts, gets-Lasts, modify-Lasts, if-Lasts, require-Lasts,
  require_some-Lasts, fail-Lasts, begin_stage-Lasts, transfer-Lasts,
}
use flight_computer_test.SdCard.Driver.Duration.Waiting.{patience}
use flight_computer_test.SdCard.Driver.Duration.Transfers.{
  transfer_byte-Lasts, read_bytes-Lasts, deselect_card-Lasts, expect_response-Lasts,
  deselect_fail-Lasts, else_deselect-Lasts, wait_ready-Lasts, wait_for_data_token-Lasts,
  selected_command-Lasts,
}

module _ {H : Type 0} {device : SpiDevice H} {tick ns : H → ℕ} {step : ℕ}
    (timed : Timed device tick ns step) (fuel : ℕ) (enough : patience 1000 < fuel) where
  send_data-Lasts :
      (buffer : Bytes) → Lasts device ns 0 (patience 2001 + 50 * step) (send_data tick fuel buffer)
  unfolding send_data
  send_data-Lasts buffer = Lasts-wider (omega arith) (omega arith) (
      else_deselect-Lasts timed (wait_ready-Lasts timed fuel ready_timeout_ms (omega arith) enough)
      ▶ λ _. else_deselect-Lasts timed (transfer_byte-Lasts timed data_start_token) ▶ λ _.
          transfer-Lasts timed buffer ▶ λ discarded.
          require_some-Lasts discarded (deselect_fail-Lasts timed _ _) ▶ λ _.
          else_deselect-Lasts timed (read_bytes-Lasts timed 2) ▶ λ _.
          else_deselect-Lasts timed (transfer_byte-Lasts timed 0xFF) ▶ λ response.
          require-Lasts (response % 32 == data_accepted) (deselect_fail-Lasts timed _ _) ▶ λ _.
          else_deselect-Lasts timed
            (wait_ready-Lasts timed fuel ready_timeout_ms (omega arith) enough))

  write_block-Lasts :
      (sector : ℕ) (buffer : Bytes)
      → Lasts device ns 0 (patience 3002 + 100 * step) (write_block tick fuel sector buffer)
  unfolding write_block
  write_block-Lasts sector buffer = Lasts-wider (omega arith) (omega arith) (
      gets-Lasts _ ▶ λ address.
      selected_command-Lasts timed fuel 24 address 0xFF enough ▶ λ response.
      expect_response-Lasts timed response (response == 0) ▶ λ _.
      send_data-Lasts buffer ▶ λ _. deselect_card-Lasts timed)

  read_block-Lasts :
      (sector : ℕ) → Lasts device ns 0 (patience 1500 + 550 * step) (read_block tick fuel sector)
  unfolding read_block
  read_block-Lasts sector = Lasts-wider (omega arith) (omega arith) (
      gets-Lasts _ ▶ λ address.
      selected_command-Lasts timed fuel 17 address 0xFF enough ▶ λ response.
      expect_response-Lasts timed response (response == 0) ▶ λ _.
      else_deselect-Lasts timed (
        wait_for_data_token-Lasts timed fuel (omega arith) ▶ λ _.
        read_bytes-Lasts timed sd_block_size ▶ λ buffer.
        read_bytes-Lasts timed 2 ▶ λ _. pure-Lasts buffer)
      ▶ λ buffer. deselect_card-Lasts timed ▶ λ _. pure-Lasts buffer)

  begin_block-Lasts :
      (stage : Bytes) (destination : Option SdCardInformation) (block : ℕ)
      → Lasts device ns 0 0 (begin_block stage destination block)
  unfolding begin_block
  begin_block-Lasts stage destination block = Lasts-wider (omega arith) (omega arith) (
      modify-Lasts _ (λ _. (refl, refl)) ▶ λ _. begin_stage-Lasts stage ▶ λ _.
      require_some-Lasts destination (fail-Lasts _ _) ▶ λ information.
      modify-Lasts _ (λ _. (refl, refl)) ▶ λ _.
      require-Lasts (ltb block test_block_count) (fail-Lasts _ _))

  pub write_test_block-Lasts :
      (destination : Option SdCardInformation) (block : ℕ)
      → Lasts device ns 0
          (patience 3002 + 100 * step)
          (sd_card_driver_write_test_block tick fuel destination block)
  unfolding sd_card_driver_write_test_block
  write_test_block-Lasts destination block = Lasts-wider (omega arith) (omega arith) (
      begin_block-Lasts _ destination block ▶ λ _. gets-Lasts _ ▶ λ before. gets-Lasts _ ▶ λ sector.
      modify-Lasts _ (λ _. (refl, refl)) ▶ λ _. write_block-Lasts sector (pattern sector) ▶ λ _.
      if-Lasts (block == test_block_count - 1) (modify-Lasts _ (λ _. (refl, refl))) (pure-Lasts tt))

  pub verify_test_block-Lasts :
      (destination : Option SdCardInformation) (block : ℕ)
      → Lasts device ns 0
          (patience 1500 + 550 * step)
          (sd_card_driver_verify_test_block tick fuel destination block)
  unfolding sd_card_driver_verify_test_block
  verify_test_block-Lasts destination block = Lasts-wider (omega arith) (omega arith) (
      begin_block-Lasts _ destination block ▶ λ _. gets-Lasts _ ▶ λ before.
      modify-Lasts _ (λ _. (refl, refl)) ▶ λ _. gets-Lasts _ ▶ λ sector.
      read_block-Lasts sector ▶ λ received.
      require-Lasts (bytes_equal (pattern sector) received) (fail-Lasts _ _) ▶ λ _.
      modify-Lasts _ (λ _. (refl, refl)) ▶ λ _.
      gets-Lasts _ ▶ λ expected. require-Lasts _ (fail-Lasts _ _))

  pub clear_test_block-Lasts :
      (destination : Option SdCardInformation) (block : ℕ)
      → Lasts device ns 0
          (patience 3002 + 100 * step)
          (sd_card_driver_clear_test_block tick fuel destination block)
  unfolding sd_card_driver_clear_test_block
  clear_test_block-Lasts destination block = Lasts-wider (omega arith) (omega arith) (
      begin_block-Lasts _ destination block ▶ λ _.
      gets-Lasts _ ▶ λ sector. write_block-Lasts sector (replicate sd_block_size 0))
