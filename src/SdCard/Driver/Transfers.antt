-- ===== src/SdCard/Driver/Transfers.antt =====
-- firmware/manufacturing_test/drivers/sd_card/sd_card_driver.c: what the bytes, commands and waits
-- send to the card, and that each leaves it selected or not as it says.
use flight_computer_test.Base.{
  ℕ, zero, suc, Bool, true, false, ◌≡◌, refl, List, [], ◌∷◌, Bytes, ltb, ◌==◌,
}
use flight_computer_test.SdCard.Driver.{
  SdCardDriver, Action, Outcome, ok, failed, out_of_fuel, give_up, ◌>>◌,
}
use flight_computer_test.SdCard.Driver.Exchange.{
  transfer_byte, clock_bytes, read_bytes, await_response, command, command_frame, deselect_card,
  else_deselect, expect_response, response_attempts,
}
use flight_computer_test.SdCard.Driver.Ensures.{
  Ensures, Settles, ◌▷◌, else-Ensures, pure-Ensures, if-Ensures, require_some-Ensures,
  require-Ensures,
}
use flight_computer_test.SdCard.Driver.Bus.{Chip, Statics, Event, is_idle, Holds, Fails}
use flight_computer_test.SdCard.Driver.Calls.{
  transfer_idle-Ensures, transfer_payload-Ensures, transfer_failed-Ensures, deselect-Ensures,
  deselect_failed-Ensures, fail-Ensures, fail_if_unset-Ensures, give_up-Ensures,
}

module _ {K : Type 0} (chip : Chip K) where
  -- A failure to report, with the card selected or not.
  abbrev pub Failing : SdCardDriver (List Event × K) → Type 0
  Failing s = (b : Bool) × Fails chip b s

  -- An action with the card selected or not before and after, and what it has sent.
  abbrev pub Sends :
      {A : Type 0}
      → Statics
      → Bool
      → List Bytes
      → Action (List Event × K) A
      → Bool
      → List Bytes
      → (SdCardDriver (List Event × K) → Type 0)
      → Type 0
  Sends v b sent m b' sent' E = Ensures (Holds chip v b sent) m (λ _. Holds chip v b' sent') E Unit

  -- The same, whichever way the card is selected.
  abbrev pub Keeps : {A : Type 0} → Statics → Bool → List Bytes → Action (List Event × K) A → Type 0
  Keeps v b sent m = Sends v b sent m b sent (Fails chip b)

module _ {K : Type 0} {chip : Chip K} where
  pub Fails-Ensures :
      {A : Type 0} {b : Bool} {P : SdCardDriver (List Event × K) → Type 0}
      {Q : A → SdCardDriver (List Event × K) → Type 0} {m : Action (List Event × K) A}
      → Ensures P m Q (Fails chip b) Unit
      → Ensures P m Q (Failing chip) Unit
  Fails-Ensures {b = b} h = else-Ensures (λ s e. (b, e)) h

  pub transfer_byte-Keeps :
      {b : Bool} {v : Statics} {sent : List Bytes} → Keeps chip v b sent (transfer_byte 0xFF)
  unfolding transfer_byte
  transfer_byte-Keeps = transfer_idle-Ensures ▷ λ received.
      require_some-Ensures received (λ _ _ _ h. h) (fail_if_unset-Ensures _ _ refl) ▷ λ _.
      pure-Ensures _

  pub transfer_byte-Sends :
      {v : Statics} {sent : List Bytes} (byte : ℕ)
      → (byte == 0xFF) ≡ false
      → Sends chip v true sent (transfer_byte byte) true ((byte ∷ []) ∷ sent) (Fails chip true)
  unfolding transfer_byte is_idle
  transfer_byte-Sends byte busy = transfer_payload-Ensures (byte ∷ []) busy ▷ λ received.
      require_some-Ensures received (λ _ _ _ h. h) (fail_if_unset-Ensures _ _ refl) ▷ λ _.
      pure-Ensures _

  pub clock_bytes-Keeps :
      {b : Bool} {v : Statics} {sent : List Bytes} (count : ℕ)
      → Keeps chip v b sent (clock_bytes 0xFF count)
  unfolding clock_bytes
  clock_bytes-Keeps zero = pure-Ensures _
  clock_bytes-Keeps (suc count) = transfer_byte-Keeps ▷ λ _. clock_bytes-Keeps count

  pub read_bytes-Keeps :
      {b : Bool} {v : Statics} {sent : List Bytes} (length : ℕ)
      → Keeps chip v b sent (read_bytes length)
  unfolding read_bytes
  read_bytes-Keeps zero = pure-Ensures _
  read_bytes-Keeps (suc length) =
      transfer_byte-Keeps ▷ λ _. read_bytes-Keeps length ▷ λ _. pure-Ensures _

  await_response-Keeps :
      {b : Bool} {v : Statics} {sent : List Bytes} (attempts : ℕ)
      → Keeps chip v b sent (await_response attempts)
  unfolding await_response
  await_response-Keeps zero = fail_if_unset-Ensures _ _ refl
  await_response-Keeps (suc attempts) = transfer_byte-Keeps ▷ λ response.
      if-Ensures (ltb response 128) (pure-Ensures _) (await_response-Keeps attempts)

  pub command-Sends :
      {v : Statics} {sent : List Bytes} (index argument crc : ℕ)
      → Sends chip v true sent
          (command index argument crc)
          true
          (command_frame index argument crc ∷ sent)
          (Failing chip)
  unfolding command command_frame is_idle
  command-Sends index argument crc = Fails-Ensures (
      transfer_payload-Ensures (command_frame index argument crc) refl ▷ λ discarded.
      require_some-Ensures discarded (λ _ _ _ h. h) (fail_if_unset-Ensures _ _ refl) ▷ λ _.
      await_response-Keeps response_attempts)

  pub deselect_card-Sends :
      {b : Bool} {v : Statics} {sent : List Bytes} {E : SdCardDriver (List Event × K) → Type 0}
      → Sends chip v b sent deselect_card false sent E
  unfolding deselect_card
  deselect_card-Sends = (deselect-Ensures ▷ λ _. transfer_idle-Ensures) ▷ λ _. pure-Ensures _

  deselect_failed :
      {A : Type 0} {b : Bool} {Q : A → SdCardDriver (List Event × K) → Type 0}
      → Ensures (Fails chip b) (deselect_card >> give_up) Q (Fails chip false) Unit
  unfolding deselect_card
  deselect_failed =
      ((deselect_failed-Ensures ▷ λ _. transfer_failed-Ensures) ▷ λ _. pure-Ensures _) ▷ λ _.
      give_up-Ensures

module _ {K : Type 0} (chip : Chip K) where
  after_failure :
      {A : Type 0} (Q : A → SdCardDriver (List Event × K) → Type 0)
      (r : Outcome A × SdCardDriver (List Event × K))
      → Settles Q (Failing chip) Unit r
      → Settles Q (Fails chip false) Unit (
          let (o, s) = r in
          elim o [
            | ok a ↦ (ok a, s)
            | failed ↦ (deselect_card >> give_up) s
            | out_of_fuel ↦ (out_of_fuel, s)
          ])
  after_failure Q (ok a, s) q = q
  after_failure Q (failed, s) (b, e) = deselect_failed.settles s e
  after_failure Q (out_of_fuel, s) q = q

module _ {K : Type 0} {chip : Chip K} where
  -- A part that fails, with the card selected or not, is followed by a deselection.
  pub else_deselect-Ensures :
      {A : Type 0} {P : SdCardDriver (List Event × K) → Type 0}
      {Q : A → SdCardDriver (List Event × K) → Type 0} {m : Action (List Event × K) A}
      → Ensures P m Q (Failing chip) Unit
      → Ensures P (else_deselect m) Q (Fails chip false) Unit
  unfolding else_deselect
  else_deselect-Ensures {Q = Q} {m = m} h = record {
    settles = λ s p. after_failure chip Q (m s) (h.settles s p);
  }

  pub expect_response-Sends :
      {b : Bool} {v : Statics} {sent : List Bytes} (response : ℕ) (expected : Bool)
      → Sends chip v b sent (expect_response response expected) b sent (Fails chip false)
  unfolding expect_response
  expect_response-Sends response expected =
      require-Ensures expected (λ _ _ h. h) (deselect_card-Sends ▷ λ _. fail-Ensures _ _ refl)
