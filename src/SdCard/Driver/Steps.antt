-- ===== src/SdCard/Driver/Steps.antt =====
-- firmware/manufacturing_test/drivers/sd_card/sd_card_driver.c: what each step of the initialization
-- sends, and that each leaves the card deselected.
use flight_computer_test.Base.{
  ℕ, zero, suc, Bool, true, false, refl, List, ◌∷◌, Bytes, ◌==◌, ◌||◌, ◌&&◌, subst, get_or, ◌/◌,
  ◌%◌, if◌then◌else◌,
}
use flight_computer_test.SdCard.Csd.{sd_block_size}
use flight_computer_test.SdCard.Driver.Exchange.{command_frame}
use flight_computer_test.SdCard.Driver.Start.{
  go_idle, read_voltage, interface_condition, operating_condition, poll_operating_condition,
  wait_operating, read_ocr, set_block_length,
}
use flight_computer_test.SdCard.Driver.Ensures.{
  Ensures, ◌▷◌, pure-Ensures, if-Ensures, require-Ensures, into-Ensures, from-Ensures,
  unless-Ensures, stop-Ensures, return-Ensures,
}
use flight_computer_test.SdCard.Driver.Bus.{Chip, Statics, Event, Holds, Fails}
use flight_computer_test.SdCard.Driver.Calls.{begin_stage-Ensures, select-Ensures, fail-Ensures}
use flight_computer_test.SdCard.Driver.Transfers.{
  Sends, Fails-Ensures, read_bytes-Keeps, command-Sends, deselect_card-Sends, else_deselect-Ensures,
  expect_response-Sends,
}
use flight_computer_test.SdCard.Driver.Waits.{
  gets-Sends, put_statics-Ensures, selected_command-Sends,
}

-- The frames of the commands of the initialization.
abbrev pub cmd0 : Bytes
cmd0 = command_frame 0 0 0x95

abbrev pub cmd8 : Bytes
cmd8 = command_frame 8 0x1AA 0x87

abbrev pub cmd9 : Bytes
cmd9 = command_frame 9 0 0xFF

abbrev pub cmd16 : Bytes
cmd16 = command_frame 16 sd_block_size 0xFF

abbrev pub cmd55 : Bytes
cmd55 = command_frame 55 0 0xFF

abbrev pub cmd58 : Bytes
cmd58 = command_frame 58 0 0xFF

abbrev pub acmd41 : Bool → Bytes
acmd41 version_two = command_frame 41 (if version_two then 0x40000000 else 0) 0xFF

-- A number of pairs of CMD55 and ACMD41 after some payloads, the latest first.
abbrev pub pairs : Bool → ℕ → List Bytes → List Bytes
pairs version_two zero sent = sent
pairs version_two (suc n) sent = pairs version_two n (acmd41 version_two ∷ cmd55 ∷ sent)

module _ {K : Type 0} {chip : Chip K} {v : Statics} {sent : List Bytes} where
  pub go_idle-Sends : Sends chip v false sent go_idle false (cmd0 ∷ sent) (Fails chip false)
  unfolding go_idle
  go_idle-Sends = begin_stage-Ensures _ refl ▷ λ _. select-Ensures ▷ λ got.
      unless-Ensures got (λ e s h. subst (λ b. Holds chip v b sent s) e h)
        (λ e. from-Ensures (λ s h. subst (λ b. Holds chip v b sent s) e h) (fail-Ensures _ _ refl))
      ▷ λ _. else_deselect-Ensures (command-Sends 0 0 0x95) ▷ λ response.
          expect_response-Sends response (response == 1) ▷ λ _. deselect_card-Sends

  read_voltage-Sends : Sends chip v true sent read_voltage true sent (Fails chip false)
  unfolding read_voltage
  read_voltage-Sends = else_deselect-Ensures (Fails-Ensures (read_bytes-Keeps 4)) ▷ λ r7.
      require-Ensures _ (λ _ _ h. h) (deselect_card-Sends ▷ λ _. fail-Ensures _ _ refl) ▷ λ _.
      pure-Ensures true

module _ {K : Type 0} {chip : Chip K} {v : Statics} (tick : List Event × K → ℕ) (fuel : ℕ) where
  pub interface_condition-Sends :
      {sent : List Bytes}
      → Sends chip v false sent
          (interface_condition tick fuel)
          false
          (cmd8 ∷ sent)
          (Fails chip false)
  unfolding interface_condition
  interface_condition-Sends = begin_stage-Ensures _ refl ▷ λ _.
      selected_command-Sends tick fuel 8 0x1AA 0x87 ▷ λ response.
      if-Ensures (response == 1) read_voltage-Sends
        (expect_response-Sends response (response == 5) ▷ λ _. pure-Ensures false)
      ▷ λ version_two. deselect_card-Sends ▷ λ _. pure-Ensures version_two

  operating_condition-Sends :
      {sent : List Bytes} (version_two : Bool)
      → Sends chip v false sent
          (operating_condition tick fuel version_two)
          false
          (acmd41 version_two ∷ cmd55 ∷ sent)
          (Fails chip false)
  unfolding operating_condition
  operating_condition-Sends version_two = begin_stage-Ensures _ refl ▷ λ _.
      selected_command-Sends tick fuel 55 0 0xFF ▷ λ response.
      expect_response-Sends response ((response == 0) || (response == 1)) ▷ λ _.
      begin_stage-Ensures _ refl ▷ λ _.
      else_deselect-Ensures (command-Sends 41 (if version_two then 0x40000000 else 0) 0xFF)
      ▷ λ response. deselect_card-Sends ▷ λ _.
          require-Ensures ((response == 0) || (response == 1)) (λ _ _ h. h) (fail-Ensures _ _ refl)
          ▷ λ _. pure-Ensures response

  -- The loop ends with success after one pair of commands or more.
  poll-Sends :
      (passes : ℕ) {sent : List Bytes} (version_two : Bool) (started : ℕ)
      → Ensures
          (Holds chip v false sent)
          (poll_operating_condition tick fuel passes version_two started)
          (λ _ s. (n : ℕ) × Holds chip v false (pairs version_two (suc n) sent) s)
          (Fails chip false)
          Unit
  unfolding poll_operating_condition
  poll-Sends zero version_two started = stop-Ensures
  poll-Sends (suc passes) version_two started = operating_condition-Sends version_two ▷ λ response.
      gets-Sends _ ▷ λ more. if-Ensures (response == 0) (return-Ensures tt (λ s h. (0, h))) (
        if-Ensures more
          (into-Ensures (λ _ s (n, h). (suc n, h)) (poll-Sends passes version_two started))
          (fail-Ensures _ _ refl))

  pub wait_operating-Sends :
      {sent : List Bytes} (version_two : Bool)
      → Ensures
          (Holds chip v false sent)
          (wait_operating tick fuel version_two)
          (λ _ s. (n : ℕ) × Holds chip v false (pairs version_two (suc n) sent) s)
          (Fails chip false)
          Unit
  unfolding wait_operating
  wait_operating-Sends version_two = gets-Sends _ ▷ λ started. poll-Sends fuel version_two started

  pub read_ocr-Sends :
      {sent : List Bytes} (version_two : Bool)
      → Ensures
          (Holds chip v false sent)
          (read_ocr tick fuel version_two)
          (λ _ s.
            (c : Bool) × Holds chip
              (record v { high_capacity = version_two && c })
              false
              (cmd58 ∷ sent)
              s)
          (Fails chip false)
          Unit
  unfolding read_ocr
  read_ocr-Sends version_two = begin_stage-Ensures _ refl ▷ λ _.
      selected_command-Sends tick fuel 58 0 0xFF ▷ λ response.
      expect_response-Sends response (response == 0) ▷ λ _.
      else_deselect-Ensures (Fails-Ensures (read_bytes-Keeps 4)) ▷ λ ocr.
      put_statics-Ensures
        (λ w. record w { high_capacity = version_two && (get_or ocr 0 0 / 64 % 2 == 1) })
      ▷ λ _. into-Ensures (λ _ s h. (get_or ocr 0 0 / 64 % 2 == 1, h)) deselect_card-Sends

  pub set_block_length-Sends :
      {sent : List Bytes}
      → Sends chip v false sent (set_block_length tick fuel) false (cmd16 ∷ sent) (Fails chip false)
  unfolding set_block_length
  set_block_length-Sends = begin_stage-Ensures _ refl ▷ λ _.
      selected_command-Sends tick fuel 16 sd_block_size 0xFF ▷ λ response.
      expect_response-Sends response (response == 0) ▷ λ _. deselect_card-Sends
