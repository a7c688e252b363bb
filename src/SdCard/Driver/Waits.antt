-- ===== src/SdCard/Driver/Waits.antt =====
-- firmware/manufacturing_test/drivers/sd_card/sd_card_driver.c: the waits send nothing but idle bytes,
-- whatever the clock and the card.
use flight_computer_test.Base.{
  ℕ, zero, suc, Bool, true, false, refl, ap, subst, List, ◌∷◌, Bytes, ◌==◌, ◌&&◌,
}
use flight_computer_test.SdCard.Driver.{SdCardDriver, gets, modify}
use flight_computer_test.SdCard.Driver.Exchange.{
  poll_ready, wait_ready, poll_token, wait_for_data_token, select_card, command_frame,
  ready_timeout_ms, data_start_token,
}
use flight_computer_test.SdCard.Driver.Start.{selected_command}
use flight_computer_test.SdCard.Driver.Ensures.{
  Ensures, stop-Ensures, ◌▷◌, pure-Ensures, if-Ensures, require-Ensures,
}
use flight_computer_test.SdCard.Driver.Bus.{Chip, Statics, put_statics, Event, Holds, Fails}
use flight_computer_test.SdCard.Driver.Calls.{select-Ensures, fail_if_unset-Ensures}
use flight_computer_test.SdCard.Driver.Transfers.{
  Failing, Sends, Keeps, Fails-Ensures, transfer_byte-Keeps, command-Sends, else_deselect-Ensures,
}

module _ {K : Type 0} {chip : Chip K} {b : Bool} {v : Statics} {sent : List Bytes} {F : Type 0}
    {E : SdCardDriver (List Event × K) → Type 0} where
  -- Reading a static or the clock changes nothing.
  pub gets-Sends :
      {A : Type 0} (f : SdCardDriver (List Event × K) → A)
      → Ensures (Holds chip v b sent) (gets f) (λ _. Holds chip v b sent) E F
  unfolding gets
  gets-Sends f = record { settles = λ s h. h }

  -- A change of the statics alone.
  pub put_statics-Ensures :
      (g : Statics → Statics)
      → Ensures (Holds chip v b sent) (modify (put_statics g)) (λ _. Holds chip (g v) b sent) E F
  unfolding modify
  put_statics-Ensures g = record {
    settles = λ s h. record {
      device = h.device;
      bus = h.bus;
      sends = h.sends;
      statics = ap g h.statics;
      stage = h.stage;
      failure = h.failure;
    };
  }

module _ {K : Type 0} {chip : Chip K} {b : Bool} {v : Statics} {sent : List Bytes}
    (tick : List Event × K → ℕ) (fuel : ℕ) where
  poll_ready-Keeps :
      (timeout started : ℕ) → Keeps chip v b sent (poll_ready tick fuel timeout started)
  unfolding poll_ready
  poll_ready-Keeps timeout started = by_fuel fuel
    where
      by_fuel : (fuel : ℕ) → Keeps chip v b sent (poll_ready tick fuel timeout started)
      by_fuel zero = stop-Ensures
      by_fuel (suc fuel) = transfer_byte-Keeps ▷ λ value. gets-Sends _ ▷ λ more.
          if-Ensures (value == 0xFF) (pure-Ensures _)
            (if-Ensures more (by_fuel fuel) (fail_if_unset-Ensures _ _ refl))

  pub wait_ready-Keeps : (timeout : ℕ) → Keeps chip v b sent (wait_ready tick fuel timeout)
  unfolding wait_ready
  wait_ready-Keeps timeout = gets-Sends _ ▷ λ started. poll_ready-Keeps timeout started

  poll_token-Keeps : (started : ℕ) → Keeps chip v b sent (poll_token tick fuel started)
  unfolding poll_token
  poll_token-Keeps started = by_fuel fuel
    where
      by_fuel : (fuel : ℕ) → Keeps chip v b sent (poll_token tick fuel started)
      by_fuel zero = stop-Ensures
      by_fuel (suc fuel) = transfer_byte-Keeps ▷ λ token. gets-Sends _ ▷ λ more.
          if-Ensures ((token == 0xFF) && more) (by_fuel fuel) (pure-Ensures _)

  pub wait_for_data_token-Keeps : Keeps chip v b sent (wait_for_data_token tick fuel)
  unfolding wait_for_data_token
  wait_for_data_token-Keeps = gets-Sends _ ▷ λ started. poll_token-Keeps started ▷ λ token.
      require-Ensures (token == data_start_token) (λ _ _ h. h) (fail_if_unset-Ensures _ _ refl)

module _ {K : Type 0} {chip : Chip K} {v : Statics} {sent : List Bytes} (tick : List Event × K → ℕ)
    (fuel : ℕ) where
  pub select_card-Sends : Sends chip v false sent (select_card tick fuel) true sent (Failing chip)
  unfolding select_card
  select_card-Sends = select-Ensures ▷ λ got.
      require-Ensures got (λ e s h. subst (λ b. Holds chip v b sent s) e h)
        (Fails-Ensures (fail_if_unset-Ensures _ _ refl))
      ▷ λ _. Fails-Ensures (wait_ready-Keeps tick fuel ready_timeout_ms)

  -- A command to a card that was not selected: its frame is sent, or the card is not selected.
  pub selected_command-Sends :
      (index argument crc : ℕ)
      → Sends chip v false sent
          (selected_command tick fuel index argument crc)
          true
          (command_frame index argument crc ∷ sent)
          (Fails chip false)
  unfolding selected_command
  selected_command-Sends index argument crc =
      else_deselect-Ensures (select_card-Sends ▷ λ _. command-Sends index argument crc)
