-- ===== src/SdCard/Driver/Duration/Ends.antt =====
-- firmware/manufacturing_test/drivers/sd_card/sd_card_driver.c: the functions of sd_card_driver.h end.
use flight_computer_test.Base.{ℕ, ◌+◌, ◌*◌, ◌<◌, ◌≡◌, refl, Option, none, some, arith}
use flight_computer_test.Spi.{SpiDevice}
use flight_computer_test.SdCard.Component.{SdCardInformation}
use flight_computer_test.SdCard.Driver.{
  SdCardDriver, Outcome, ok, failed, out_of_fuel, ◌>>=◌, modify, begin_stage, require_some, fail,
  pure,
}
use flight_computer_test.SdCard.Driver.Start.{sd_card_driver_initialize}
use flight_computer_test.SdCard.Driver.Blocks.{
  sd_card_driver_write_test_block, sd_card_driver_verify_test_block,
  sd_card_driver_clear_test_block,
}
use flight_computer_test.SdCard.Driver.Duration.{
  Timed, InTime, Lasts, Takes, ◌▶◌, Lasts-wider, require-Lasts, fail-Lasts, begin_stage-Lasts,
  initialize-Lasts,
}
use flight_computer_test.SdCard.Driver.Duration.Waiting.{patience}
use flight_computer_test.SdCard.Driver.Duration.Transfers.{clock_bytes-Lasts}
use flight_computer_test.SdCard.Driver.Duration.Initialize.{identify_card-Lasts}
use flight_computer_test.SdCard.Driver.Duration.Blocks.{
  write_test_block-Lasts, verify_test_block-Lasts, clear_test_block-Lasts,
}

-- An outcome with fuel left, after some time at most.
abbrev pub Ends : {H A : Type 0} → (H → ℕ) → ℕ → ℕ → Outcome A × SdCardDriver H → Type 0
Ends ns most before (ok a, s) = Takes 0 most before (ns s.hardware)
Ends ns most before (failed, s) = Takes 0 most before (ns s.hardware)
Ends ns most before (out_of_fuel, s) = ⊥

InTime-Ends :
    {H A : Type 0} (device : SpiDevice H) (ns : H → ℕ) (most before : ℕ)
    (r : Outcome A × SdCardDriver H)
    → InTime device ns 0 most before r
    → Ends ns most before r
InTime-Ends device ns most before (ok a, s) (d, takes) = takes
InTime-Ends device ns most before (failed, s) (d, takes) = takes
InTime-Ends device ns most before (out_of_fuel, s) e = e

module _ {H : Type 0} (device : SpiDevice H) (tick ns : H → ℕ) (step fuel : ℕ)
    (timed : Timed device tick ns step) (enough : patience 1000 < fuel) where
  -- Where the calls of the device take time, none more than `step` nanoseconds, and HAL_GetTick counts
  -- that time: sd_card_driver_initialize ends, with any card and from any state, within 7.501 s and
  -- 420 calls of the device, if the loops have fuel for more than 1.001 s of passes of a nanosecond.
  pub initialize-Ends :
      (destination : Option SdCardInformation) (s : SdCardDriver H)
      → Ends ns
          (patience 7500 + 420 * step)
          (ns s.hardware)
          (sd_card_driver_initialize tick fuel (some device) destination s)
  unfolding sd_card_driver_initialize ◌>>=◌ modify begin_stage require_some fail pure
  initialize-Ends none s = (omega arith, omega arith)
  initialize-Ends (some information) s =
      let rest : Lasts device ns 0 (patience 7500 + 420 * step) _ =
        Lasts-wider (omega arith) (omega arith) (
          initialize-Lasts timed ▶ λ working. require-Lasts working (fail-Lasts _ _) ▶ λ _.
          begin_stage-Lasts _ ▶ λ _.
          clock_bytes-Lasts timed 0xFF 10 ▶ λ _. identify_card-Lasts timed fuel enough) in
      InTime-Ends device ns (patience 7500 + 420 * step) (ns s.hardware) _ (rest.in_time _ refl)

  -- Under the same hypotheses, and once the device is known: each operation on a block ends, whatever
  -- its block and destination, a write and a clearing within 3.003 s and 100 calls of the device, a
  -- verification within 1.501 s and 550 calls of it.
  pub operations-Ends :
      (destination : Option SdCardInformation) (block : ℕ) (s : SdCardDriver H)
      → s.device ≡ some device
      → Ends ns
          (patience 3002 + 100 * step)
          (ns s.hardware)
          (sd_card_driver_write_test_block tick fuel destination block s)
        × Ends ns
            (patience 1500 + 550 * step)
            (ns s.hardware)
            (sd_card_driver_verify_test_block tick fuel destination block s)
        × Ends ns
            (patience 3002 + 100 * step)
            (ns s.hardware)
            (sd_card_driver_clear_test_block tick fuel destination block s)
  operations-Ends destination block s known =
      let before = ns s.hardware in
      (
        InTime-Ends device ns (patience 3002 + 100 * step) before _
            ((write_test_block-Lasts timed fuel enough destination block).in_time s known),
        InTime-Ends device ns (patience 1500 + 550 * step) before _
            ((verify_test_block-Lasts timed fuel enough destination block).in_time s known),
        InTime-Ends device ns (patience 3002 + 100 * step) before _
            ((clear_test_block-Lasts timed fuel enough destination block).in_time s known),
      )
