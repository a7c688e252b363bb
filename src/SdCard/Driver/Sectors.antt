-- ===== src/SdCard/Driver/Sectors.antt =====
-- firmware/manufacturing_test/drivers/sd_card/sd_card_driver.c: what goes to the card when a sector of
-- the test area is written, verified or cleared, and how the driver is left.
use flight_computer_test.Base.{
  ℕ, ◌*◌, ◌%◌, ◌^◌, Bool, true, false, ◌≡◌, refl, ap, List, [], ◌∷◌, Bytes, ◌==◌, if◌then◌else◌,
}
use flight_computer_test.SdCard.Csd.{sd_block_size}
use flight_computer_test.SdCard.Driver.{SdCardDriver}
use flight_computer_test.SdCard.Driver.Exchange.{
  command_frame, data_start_token, ready_timeout_ms, wire_address,
}
use flight_computer_test.SdCard.Driver.Blocks.{send_data, write_block, read_block, data_accepted}
use flight_computer_test.SdCard.Driver.Ensures.{
  ◌▷◌, pure-Ensures, require-Ensures, require_some-Ensures, gets-then-Ensures,
}
use flight_computer_test.SdCard.Driver.Bus.{Chip, Statics, Event, is_idle, Holds, Fails}
use flight_computer_test.SdCard.Driver.Calls.{transfer_payload-Ensures, fail-Ensures}
use flight_computer_test.SdCard.Driver.Transfers.{
  Sends, Fails-Ensures, transfer_byte-Keeps, transfer_byte-Sends, read_bytes-Keeps,
  deselect_card-Sends, else_deselect-Ensures, expect_response-Sends,
}
use flight_computer_test.SdCard.Driver.Waits.{
  wait_ready-Keeps, wait_for_data_token-Keeps, selected_command-Sends,
}

-- The address of a sector on the bus: in sectors if the card has a high capacity, else in bytes.
abbrev pub address_of : Bool → ℕ → ℕ
address_of high_capacity sector = if high_capacity then sector else sector * sd_block_size % 2 ^ 32

-- What a written, and what a read sector sends: the latest first.
abbrev pub written : Bool → ℕ → Bytes → List Bytes → List Bytes
written high_capacity sector buffer sent =
    buffer
    ∷ (data_start_token ∷ [])
    ∷ command_frame 24 (address_of high_capacity sector) 0xFF
    ∷ sent

abbrev pub asked : Bool → ℕ → List Bytes → List Bytes
asked high_capacity sector sent = command_frame 17 (address_of high_capacity sector) 0xFF ∷ sent

module _ {K : Type 0} {chip : Chip K} (tick : List Event × K → ℕ) (fuel : ℕ) where
  send_data-Sends :
      {v : Statics} {sent : List Bytes} (buffer : Bytes)
      → is_idle buffer ≡ false
      → Sends chip v true sent
          (send_data tick fuel buffer)
          true
          (buffer ∷ (data_start_token ∷ []) ∷ sent)
          (Fails chip false)
  unfolding send_data
  send_data-Sends buffer busy =
      else_deselect-Ensures (Fails-Ensures (wait_ready-Keeps tick fuel ready_timeout_ms)) ▷ λ _.
      else_deselect-Ensures (Fails-Ensures (transfer_byte-Sends data_start_token refl)) ▷ λ _.
      transfer_payload-Ensures buffer busy ▷ λ discarded.
      require_some-Ensures discarded (λ _ _ _ h. h)
        (deselect_card-Sends ▷ λ _. fail-Ensures _ _ refl)
      ▷ λ _. else_deselect-Ensures (Fails-Ensures (read_bytes-Keeps 2)) ▷ λ _.
          else_deselect-Ensures (Fails-Ensures transfer_byte-Keeps) ▷ λ response.
          require-Ensures (response % 32 == data_accepted) (λ _ _ h. h)
            (deselect_card-Sends ▷ λ _. fail-Ensures _ _ refl)
          ▷ λ _. else_deselect-Ensures (Fails-Ensures (wait_ready-Keeps tick fuel ready_timeout_ms))

  pub wire_address-Holds :
      {v : Statics} {b : Bool} {sent : List Bytes} (sector : ℕ) (s : SdCardDriver (List Event × K))
      → Holds chip v b sent s
      → wire_address sector s ≡ address_of v.high_capacity sector
  unfolding wire_address
  wire_address-Holds sector s h = ap (λ v. address_of v.high_capacity sector) h.statics

  pub write_block-Sends :
      {v : Statics} {sent : List Bytes} (sector : ℕ) (buffer : Bytes)
      → is_idle buffer ≡ false
      → Sends chip v false sent
          (write_block tick fuel sector buffer)
          false
          (written v.high_capacity sector buffer sent)
          (Fails chip false)
  unfolding write_block
  write_block-Sends {v = v} sector buffer busy =
      gets-then-Ensures (wire_address sector) _ (address_of v.high_capacity sector)
        (λ s h. wire_address-Holds sector s h)
        (selected_command-Sends tick fuel 24 (address_of v.high_capacity sector) 0xFF ▷ λ response.
          expect_response-Sends response (response == 0) ▷ λ _.
          send_data-Sends buffer busy ▷ λ _. deselect_card-Sends)

  pub read_block-Sends :
      {v : Statics} {sent : List Bytes} (sector : ℕ)
      → Sends chip v false sent
          (read_block tick fuel sector)
          false
          (asked v.high_capacity sector sent)
          (Fails chip false)
  unfolding read_block
  read_block-Sends {v = v} sector =
      gets-then-Ensures (wire_address sector) _ (address_of v.high_capacity sector)
        (λ s h. wire_address-Holds sector s h)
        (selected_command-Sends tick fuel 17 (address_of v.high_capacity sector) 0xFF ▷ λ response.
          expect_response-Sends response (response == 0) ▷ λ _.
          else_deselect-Ensures (
            Fails-Ensures (
              wait_for_data_token-Keeps tick fuel ▷ λ _. read_bytes-Keeps sd_block_size ▷ λ buffer.
              read_bytes-Keeps 2 ▷ λ _. pure-Ensures buffer))
          ▷ λ buffer. deselect_card-Sends ▷ λ _. pure-Ensures buffer)
