-- ===== src/SdCard/Driver/Duration/Transfers.antt =====
-- firmware/manufacturing_test/drivers/sd_card/sd_card_driver.c: how long the bytes, commands and waits
-- last.
use flight_computer_test.Base.{
  ℕ, zero, suc, ◌+◌, ◌*◌, ◌≤◌, ◌<◌, Bool, true, false, ◌≡◌, refl, ◌⊎◌, inl, inr, ◌∷◌, [], Bytes,
  ltb, ◌==◌, ◌&&◌, if◌then◌else◌, arith,
}
use flight_computer_test.Base.Int.{ℤ, pos}
use flight_computer_test.Base.Text.{codes}
use flight_computer_test.Spi.{SpiDevice}
use flight_computer_test.SdCard.Driver.{
  SdCardDriver, Outcome, ok, failed, out_of_fuel, Action, pure, gets, give_up, ◌>>=◌, ◌>>◌, fail,
  fail_if_unset,
}
use flight_computer_test.SdCard.Driver.Exchange.{
  transfer_byte, clock_bytes, read_bytes, await_response, command, deselect_card, else_deselect,
  expect_response, poll_ready, wait_ready, poll_token, wait_for_data_token, select_card,
  response_attempts, ready_timeout_ms, data_timeout_ms, data_start_token,
}
use flight_computer_test.SdCard.Driver.Start.{selected_command}
use flight_computer_test.SdCard.Driver.Duration.{
  Timed, InTime, Lasts, ◌▶◌, InTime-wider, Lasts-wider, pure-Lasts, give_up-Lasts, if-Lasts,
  require-Lasts, require_some-Lasts, fail-Lasts, fail_if_unset-Lasts, transfer-Lasts, select-Lasts,
  deselect-Lasts,
}
use flight_computer_test.SdCard.Driver.Duration.Waiting.{patience, wait-Lasts}

module _ {H : Type 0} {device : SpiDevice H} {tick ns : H → ℕ} {step : ℕ}
    (timed : Timed device tick ns step) where
  pub transfer_byte-Lasts : (byte : ℕ) → Lasts device ns 1 step (transfer_byte byte)
  unfolding transfer_byte
  transfer_byte-Lasts byte = Lasts-wider (omega arith) (omega arith) (
      transfer-Lasts timed (byte ∷ []) ▶ λ received.
      require_some-Lasts received (fail_if_unset-Lasts _ _) ▶ λ _. pure-Lasts _)

  pub clock_bytes-Lasts :
      (byte count : ℕ) → Lasts device ns 0 (count * step) (clock_bytes byte count)
  unfolding clock_bytes
  clock_bytes-Lasts byte zero = Lasts-wider (omega arith) (omega arith) (pure-Lasts tt)
  clock_bytes-Lasts byte (suc count) =
      Lasts-wider (omega arith) (omega arith)
        (transfer_byte-Lasts byte ▶ λ _. clock_bytes-Lasts byte count)

  pub read_bytes-Lasts : (count : ℕ) → Lasts device ns 0 (count * step) (read_bytes count)
  unfolding read_bytes
  read_bytes-Lasts zero = Lasts-wider (omega arith) (omega arith) (pure-Lasts [])
  read_bytes-Lasts (suc count) =
      Lasts-wider (omega arith) (omega arith)
        (transfer_byte-Lasts 0xFF ▶ λ _. read_bytes-Lasts count ▶ λ _. pure-Lasts _)

  await_response-Lasts :
      (attempts : ℕ) → Lasts device ns 0 (attempts * step) (await_response attempts)
  unfolding await_response
  await_response-Lasts zero = Lasts-wider (omega arith) (omega arith) (fail_if_unset-Lasts _ _)
  await_response-Lasts (suc attempts) = Lasts-wider (omega arith) (omega arith) (
      transfer_byte-Lasts 0xFF ▶ λ response.
      if-Lasts (ltb response 128) (Lasts-wider (omega arith) (omega arith) (pure-Lasts response))
        (await_response-Lasts attempts))

  pub command-Lasts :
      (index argument crc : ℕ) → Lasts device ns 1 (17 * step) (command index argument crc)
  unfolding command
  command-Lasts index argument crc = Lasts-wider (omega arith) (omega arith) (
      transfer-Lasts timed _ ▶ λ discarded.
      require_some-Lasts discarded (fail_if_unset-Lasts _ _) ▶ λ _.
      await_response-Lasts response_attempts)

  pub deselect_card-Lasts : Lasts device ns 1 (2 * step) deselect_card
  unfolding deselect_card
  deselect_card-Lasts =
      Lasts-wider (omega arith) (omega arith)
        ((deselect-Lasts timed ▶ λ _. transfer-Lasts timed _) ▶ λ _. pure-Lasts tt)

  pub deselect_fail-Lasts :
      {A : Type 0} (reason : Bytes) (code : ℤ)
      → Lasts device ns 0 (2 * step) (deselect_card >> fail {A = A} reason code)
  deselect_fail-Lasts reason code =
      Lasts-wider (omega arith) (omega arith) (deselect_card-Lasts ▶ λ _. fail-Lasts reason code)

  pub expect_response-Lasts :
      (response : ℕ) (expected : Bool)
      → Lasts device ns 0 (2 * step) (expect_response response expected)
  unfolding expect_response
  expect_response-Lasts response expected = require-Lasts expected (deselect_fail-Lasts _ _)

  after_failure :
      {A : Type 0} (least most before : ℕ) (r : Outcome A × SdCardDriver H)
      → InTime device ns least most before r
      → InTime device ns {A = A} least (most + 2 * step) before (
          let (o, s) = r in
          elim o [
            | ok a ↦ (ok a, s)
            | failed ↦ (deselect_card >> give_up) s
            | out_of_fuel ↦ (out_of_fuel, s)
          ])
  after_failure least most before (ok a, s) (d, (l, m)) = (d, (omega arith, omega arith))
  after_failure {A = A} least most before (failed, s) (d, (l, m)) =
      InTime-wider device ns least (1 + least) (most + 2 * step) (2 * step + 0) before
        (ns s.hardware) ((deselect_card >> give_up {A = A}) s) (omega arith) (omega arith)
        (omega arith) ((deselect_card-Lasts ▶ λ _. give_up-Lasts least).in_time s d)
  after_failure least most before (out_of_fuel, s) e = e

  pub else_deselect-Lasts :
      {A : Type 0} {least most : ℕ} {m : Action H A}
      → Lasts device ns least most m
      → Lasts device ns least (most + 2 * step) (else_deselect m)
  unfolding else_deselect
  else_deselect-Lasts {least = least} {most = most} {m = m} h = record {
    in_time = λ s d. after_failure least most (ns s.hardware) (m s) (h.in_time s d);
  }

-- The last test of a pass, in the loops that may be late and in the one that may not.
module _ {H A : Type 0} {device : SpiDevice H} {ns : H → ℕ} where
  pub or_late :
      (done more : Bool) (a : A) (rest : Action H A) {late : Action H A}
      → Lasts device ns 0 0 late
      → Lasts device ns 0 0 (if done then pure a else (if more then rest else late))
        ⊎ ((more ≡ true) × ((if done then pure a else (if more then rest else late)) ≡ rest))
  or_late true more a rest h = inl (pure-Lasts a)
  or_late false true a rest h = inr (refl, refl)
  or_late false false a rest h = inl h

  or_done :
      (again more : Bool) (a : A) (rest : Action H A)
      → Lasts device ns 0 0 (if again && more then rest else pure a)
        ⊎ ((more ≡ true) × ((if again && more then rest else pure a) ≡ rest))
  or_done false more a rest = inl (pure-Lasts a)
  or_done true true a rest = inr (refl, refl)
  or_done true false a rest = inl (pure-Lasts a)

module _ {H : Type 0} {device : SpiDevice H} {tick ns : H → ℕ} {step : ℕ}
    (timed : Timed device tick ns step) (fuel : ℕ) where
  pub wait_ready-Lasts :
      (timeout : ℕ)
      → timeout ≤ 1000
      → patience timeout < fuel
      → Lasts device ns 0 (patience timeout + step) (wait_ready tick fuel timeout)
  unfolding wait_ready poll_ready
  wait_ready-Lasts timeout small enough =
      wait-Lasts timed timeout step fuel (transfer_byte 0xFF)
        (λ value more rest.
          let late = fail_if_unset (codes "card_busy_timeout") (pos value) in
          if value == 0xFF then pure tt else (if more then rest else late))
        (λ started fuel. poll_ready tick fuel timeout started) small (omega (arith, timed.short))
        enough (transfer_byte-Lasts timed 0xFF)
        (λ value more rest. or_late (value == 0xFF) more tt rest (fail_if_unset-Lasts _ _))
        (λ started n. refl)

  pub wait_for_data_token-Lasts :
      patience 250 < fuel → Lasts device ns 0 (patience 250 + step) (wait_for_data_token tick fuel)
  unfolding wait_for_data_token poll_token gets ◌>>=◌
  wait_for_data_token-Lasts enough =
      let waits =
        wait-Lasts timed data_timeout_ms step fuel (transfer_byte 0xFF)
          (λ token more rest. if (token == 0xFF) && more then rest else pure token)
          (λ started fuel. poll_token tick fuel started) (omega arith) (omega (arith, timed.short))
          enough (transfer_byte-Lasts timed 0xFF)
          (λ token more rest. or_done (token == 0xFF) more token rest) (λ started n. refl) in
      let tested = waits ▶ λ token.
      require-Lasts (token == data_start_token)
        (fail_if_unset-Lasts (codes "unexpected_data_token") (pos token)) in
      Lasts-wider (omega arith) (omega arith) (record { in_time = λ s d. tested.in_time s d })

  pub select_card-Lasts :
      patience 1000 < fuel → Lasts device ns 0 (patience 1000 + 2 * step) (select_card tick fuel)
  unfolding select_card
  select_card-Lasts enough = Lasts-wider (omega arith) (omega arith) (
      select-Lasts timed ▶ λ got. require-Lasts got (fail_if_unset-Lasts _ _) ▶ λ _.
      wait_ready-Lasts ready_timeout_ms (omega arith) enough)

  pub selected_command-Lasts :
      (index argument crc : ℕ)
      → patience 1000 < fuel
      → Lasts device ns 1
          (patience 1000 + 21 * step)
          (selected_command tick fuel index argument crc)
  unfolding selected_command
  selected_command-Lasts index argument crc enough = Lasts-wider (omega arith) (omega arith) (
      else_deselect-Lasts timed
        (select_card-Lasts enough ▶ λ _. command-Lasts timed index argument crc))
