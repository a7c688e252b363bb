-- ===== src/SdCard/Whole/Component.antt =====
-- The functions of firmware/manufacturing_test/components/sd_card/sd_card_test.c, on the driver
-- firmware/manufacturing_test/drivers/sd_card/sd_card_driver.c and any card.
use flight_computer_test.Base.{
  ℕ, ◌+◌, ◌*◌, ◌<◌, ◌≡◌, inl, inr, refl, Bool-cases, Bool, true, false, not, some, List,
}
use flight_computer_test.Base.Text.{codes}
use flight_computer_test.Spi.{spi_device_deselect, spi_device_transfer}
use flight_computer_test.SdCard.Component.{
  State, announce_removal, waiting_for_removal, announce_insertion, waiting_for_insertion,
  initializing, writing, verifying, cleaning_up, complete, failed, Driver, SdCardTest,
  SdCardInformation, sd_card_test_start, process_state, sd_card_test_process, sd_card_test_stop,
  message,
}
use flight_computer_test.SdCard.Driver.{SdCardDriver, ◌>>=◌, pure, device_deselect, device_transfer}
use flight_computer_test.SdCard.Driver.Exchange.{deselect_card}
use flight_computer_test.SdCard.Driver.Blocks.{sd_card_driver, sd_card_driver_shutdown}
use flight_computer_test.SdCard.Driver.Bus.{Chip, Event, recorded, Orderly, idle, release}
use flight_computer_test.SdCard.Driver.Promise.{
  IsKnown, initialize-Settles, write_test_block-Settles, verify_test_block-Settles,
  clear_test_block-Settles,
}
use flight_computer_test.SdCard.Driver.Duration.{Timed}
use flight_computer_test.SdCard.Driver.Duration.Waiting.{patience}
use flight_computer_test.SdCard.Driver.Duration.Ends.{initialize-Ends, operations-Ends}
use flight_computer_test.SdCard.Whole.{
  Rests, Turn, Served, served, if-Turn, card_driver, removed-Turn, await-Turn, initialize-Turn,
  after_block-Turn, working,
}

module _ {K : Type 0} (chip : Chip K) (tick ns : List Event × K → ℕ)
    (inserted : List Event × K → Bool) (step fuel : ℕ) (timed : Timed (recorded chip) tick ns step)
    (enough : patience 1000 < fuel) where
  abbrev in_use : Driver (SdCardDriver (List Event × K))
  in_use = card_driver chip tick inserted fuel

  initialize-Served :
      (i : SdCardInformation) (s : SdCardDriver (List Event × K))
      → IsKnown chip s.device
      → Orderly false s.hardware.0
      → let (b, _, s') = in_use.initialize i s in Served chip b s'
  unfolding sd_card_driver
  initialize-Served i s known o =
      served chip _ ns (patience 7500 + 420 * step) (ns s.hardware) _
        (λ _ s' (i, _, (card, h, _)). (h.device, h.bus))
        (initialize-Settles chip tick fuel (some i) s known o)
        (initialize-Ends (recorded chip) tick ns step fuel timed enough (some i) s)

  write-Served :
      (i : SdCardInformation) (block : ℕ) (s : SdCardDriver (List Event × K))
      → s.device ≡ some (recorded chip)
      → Orderly false s.hardware.0
      → let (b, _, s') = in_use.write_test_block i block s in Served chip b s'
  unfolding sd_card_driver
  write-Served i block s d o =
      served chip _ ns (patience 3002 + 100 * step) (ns s.hardware) _
        (λ _ s' (i, _, _, h). (h.device, h.bus))
        (write_test_block-Settles chip tick fuel (some i) block s d o)
        (operations-Ends (recorded chip) tick ns step fuel timed enough (some i) block s d).0

  verify-Served :
      (i : SdCardInformation) (block : ℕ) (s : SdCardDriver (List Event × K))
      → s.device ≡ some (recorded chip)
      → Orderly false s.hardware.0
      → let (b, s') = in_use.verify_test_block i block s in Served chip b s'
  unfolding sd_card_driver
  verify-Served i block s d o =
      served chip _ ns (patience 1500 + 550 * step) (ns s.hardware) _
        (λ _ s' (i, _, _, h, _). (h.device, h.bus))
        (verify_test_block-Settles chip tick fuel (some i) block s d o)
        (operations-Ends (recorded chip) tick ns step fuel timed enough (some i) block s d).1

  clear-Served :
      (i : SdCardInformation) (block : ℕ) (s : SdCardDriver (List Event × K))
      → s.device ≡ some (recorded chip)
      → Orderly false s.hardware.0
      → let (b, s') = in_use.clear_test_block i block s in Served chip b s'
  unfolding sd_card_driver
  clear-Served i block s d o =
      served chip _ ns (patience 3002 + 100 * step) (ns s.hardware) _
        (λ _ s' (i, _, _, h). (h.device, h.bus))
        (clear_test_block-Settles chip tick fuel (some i) block s d o)
        (operations-Ends (recorded chip) tick ns step fuel timed enough (some i) block s d).2

  process_state-Turn :
      (state : State) (t : SdCardTest) (s : SdCardDriver (List Event × K))
      → t.state ≡ state
      → Rests chip t s
      → Turn chip (process_state in_use state t s)
  unfolding process_state message sd_card_driver
  process_state-Turn announce_removal t s e h =
      (record { device = h.device; bus = h.bus; ready = inl refl }, tt)
  process_state-Turn waiting_for_removal t s e h =
      await-Turn chip tick inserted fuel false announce_insertion _ t s refl h
  process_state-Turn announce_insertion t s e h =
      (record { device = h.device; bus = h.bus; ready = inl refl }, tt)
  process_state-Turn waiting_for_insertion t s e h =
      await-Turn chip tick inserted fuel true initializing _ t s refl h
  process_state-Turn initializing t s e h =
      if-Turn chip (not (inserted s.hardware)) _ _
        (removed-Turn chip tick inserted fuel (codes "initialization") 0 t s refl h)
        (initialize-Turn chip tick inserted fuel _ _ t _
          (initialize-Served t.information s h.device h.bus))
  process_state-Turn writing t s e h =
      let d = working chip tick inserted fuel writing t s refl e h in
      if-Turn chip (not (inserted s.hardware)) _ _
        (removed-Turn chip tick inserted fuel (codes "write") t.current_block t s refl h)
        (after_block-Turn chip tick inserted fuel verifying (codes "sd_card_written") _ _ _ t
          (write-Served t.information t.current_block s d h.bus))
  process_state-Turn verifying t s e h =
      let d = working chip tick inserted fuel verifying t s refl e h in
      if-Turn chip (not (inserted s.hardware)) _ _
        (removed-Turn chip tick inserted fuel (codes "verify") t.current_block t s refl h)
        (after_block-Turn chip tick inserted fuel cleaning_up (codes "sd_card_verified") _ _ _ t
          (verify-Served t.information t.current_block s d h.bus))
  process_state-Turn cleaning_up t s e h =
      let d = working chip tick inserted fuel cleaning_up t s refl e h in
      if-Turn chip (not (inserted s.hardware)) _ _
        (removed-Turn chip tick inserted fuel (codes "cleanup") t.current_block t s refl h)
        (after_block-Turn chip tick inserted fuel complete (codes "sd_card_cleaned_up") _ _ _ t
          (clear-Served t.information t.current_block s d h.bus))
  process_state-Turn complete t s e h = (h, tt)
  process_state-Turn failed t s e h = (h, tt)

  start-Rests :
      (t : SdCardTest) (s : SdCardDriver (List Event × K))
      → Rests chip t s
      → Rests chip (sd_card_test_start in_use t s) s
  unfolding sd_card_test_start sd_card_driver
  start-Rests t s h = elim (Bool-cases (inserted s.hardware)) [
    | inl there ↦ record { device = h.device; bus = h.bus; ready = inl (rw there refl) }
    | inr gone ↦ record { device = h.device; bus = h.bus; ready = inl (rw gone refl) }
  ]

  stop-Orderly :
      (t : SdCardTest) (s : SdCardDriver (List Event × K))
      → Rests chip t s
      → Orderly false (sd_card_test_stop in_use s).hardware.0
  unfolding sd_card_test_stop sd_card_driver sd_card_driver_shutdown deselect_card ◌>>=◌ pure
      device_deselect device_transfer spi_device_deselect spi_device_transfer recorded
  stop-Orderly t s h = elim h.device [
    | inl unknown ↦ rw unknown h.bus
    | inr known ↦ rw known (idle (release h.bus))
  ]

  -- With any card and bus, where the calls of the device take time and HAL_GetTick counts it: from a
  -- state in which the card is not selected and the bus was used in order, sd_card_test_start,
  -- sd_card_test_process and sd_card_test_stop leave it so, in every state of the test and on every
  -- outcome, and a failure that the process function reports has a stage and a reason of at most 48
  -- bytes on one line.
  pub component-Turn :
      (t : SdCardTest) (s : SdCardDriver (List Event × K))
      → Rests chip t s
      → Rests chip (sd_card_test_start (card_driver chip tick inserted fuel) t s) s
        × Turn chip (sd_card_test_process (card_driver chip tick inserted fuel) t s)
        × Orderly false (sd_card_test_stop (card_driver chip tick inserted fuel) s).hardware.0
  unfolding sd_card_test_process
  component-Turn t s h =
      (start-Rests t s h, process_state-Turn t.state t s refl h, stop-Orderly t s h)
