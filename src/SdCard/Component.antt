-- ===== src/SdCard/Component.antt =====
-- firmware/manufacturing_test/components/sd_card/sd_card_test.c: remove the card, insert it, then
-- eight raw sectors are written, verified and cleared. `H` is the hardware behind the driver.
pub mod Passes
use flight_computer_test.Base.{
  ℕ, ◌+◌, ◌-◌, ◌%◌, ◌^◌, Bool, true, false, not, ◌&&◌, ◌||◌, Option, none, some, Bytes, ltb, leb,
  ◌==◌, if◌then◌else◌,
}
use flight_computer_test.Base.Int.{ℤ, pos}
use flight_computer_test.Base.Text.{codes}
use flight_computer_test.Registry.{ProcessResult, ComponentEvent, EventKind}

-- sd_card_test_state_t
pub data State : Type 0 where
  announce_removal waiting_for_removal announce_insertion waiting_for_insertion : State
  initializing writing verifying cleaning_up complete failed : State

-- sd_card_information_t
pub record SdCardInformation : Type 0 where
  pub sector_count : ℕ
  pub test_sector : ℕ
  pub checksum : ℕ
  pub high_capacity : Bool

-- sd_card_failure_t
pub record SdCardFailure : Type 0 where
  pub stage : Option Bytes
  pub reason : Option Bytes
  pub code : ℤ

-- The functions that the test calls: the card driver's, the tick counter and the card switch.
pub record Driver (H : Type 0) : Type 0 where
  pub initialize : SdCardInformation → H → Bool × SdCardInformation × H
  pub write_test_block : SdCardInformation → ℕ → H → Bool × SdCardInformation × H
  pub verify_test_block : SdCardInformation → ℕ → H → Bool × H
  pub clear_test_block : SdCardInformation → ℕ → H → Bool × H
  pub shutdown : H → H
  pub last_failure : H → SdCardFailure
  pub tick : H → ℕ
  pub card_inserted : H → Bool

-- SD_CARD_TEST_BLOCK_COUNT, SD_CARD_POLL_INTERVAL_MS and SD_CARD_STABLE_POLLS
abbrev pub test_block_count : ℕ
test_block_count = 8

abbrev pub poll_interval_ms : ℕ
poll_interval_ms = 20

abbrev pub stable_polls : ℕ
stable_polls = 3

-- The statics of the file.
pub record SdCardTest : Type 0 where
  pub state : State
  pub next_poll_at : ℕ
  pub matching_polls : ℕ
  pub current_block : ℕ
  pub latest_event : ComponentEvent
  pub information : SdCardInformation

abbrev pub blank_event : ComponentEvent
blank_event = record {
  kind = EventKind.message;
  name = none;
  acceleration_x = pos 0;
  acceleration_y = pos 0;
  acceleration_z = pos 0;
  gyroscope_x = pos 0;
  gyroscope_y = pos 0;
  gyroscope_z = pos 0;
  pressure_centi_pa = pos 0;
  temperature_centi_c = pos 0;
  sector_count = 0;
  test_sector = 0;
  checksum = 0;
  high_capacity = false;
  failure_stage = none;
  failure_reason = none;
  failure_code = pos 0;
}

abbrev pub blank_information : SdCardInformation
blank_information = record {
  sector_count = 0;
  test_sector = 0;
  checksum = 0;
  high_capacity = false;
}

-- message, card_information_event and failure_event
unfoldable pub message : Bytes → ComponentEvent
message name = record blank_event { name = some name }

unfoldable pub card_information_event : Bytes → SdCardInformation → ComponentEvent
card_information_event name information = record blank_event {
  kind = EventKind.sd_card_info;
  name = some name;
  sector_count = information.sector_count;
  test_sector = information.test_sector;
  checksum = information.checksum;
  high_capacity = information.high_capacity;
}

unfoldable pub failure_event : SdCardFailure → ComponentEvent
failure_event failure = record blank_event {
  kind = EventKind.failure;
  name = some (codes "component_failure");
  failure_stage = failure.stage;
  failure_reason = failure.reason;
  failure_code = failure.code;
}

-- The event of a card that was pulled out in a stage, at a block.
abbrev pub removed_event : Bytes → ℕ → ComponentEvent
removed_event stage block =
    failure_event
      (record { stage = some stage; reason = some (codes "card_removed"); code = pos block })

module _ {H : Type 0} (driver : Driver H) where
  -- stable_card_state: the difference of the ticks is read as a signed 32-bit number.
  unfoldable pub stable_card_state : Bool → SdCardTest → H → Bool × SdCardTest
  stable_card_state inserted t h =
      let now = driver.tick h in
      let same = if driver.card_inserted h then inserted else not inserted in
      let polls = if same then (t.matching_polls + 1) % 2 ^ 8 else 0 in
      if leb (2 ^ 31) ((now + 2 ^ 32 - t.next_poll_at) % 2 ^ 32) then (false, t) else (
        leb stable_polls polls,
        record t { next_poll_at = (now + poll_interval_ms) % 2 ^ 32; matching_polls = polls },
      )

  -- sd_card_test_start
  unfoldable pub sd_card_test_start : SdCardTest → H → SdCardTest
  sd_card_test_start t h = record t {
    information = blank_information;
    matching_polls = 0;
    current_block = 0;
    next_poll_at = driver.tick h;
    state = if driver.card_inserted h then announce_removal else announce_insertion;
  }

  -- A failure: the driver's own, or a card that is gone.
  abbrev pub fail : ComponentEvent → SdCardTest → H → ProcessResult × SdCardTest × H
  fail event t h = (ProcessResult.event, record t { latest_event = event; state = failed }, h)

  -- The end of a block that went well: the next block, or the next stage and its event.
  unfoldable pub next_block : State → Bytes → SdCardTest → H → ProcessResult × SdCardTest × H
  next_block next name t h =
      let block = t.current_block + 1 in
      if ltb block test_block_count
      then (ProcessResult.running, record t { current_block = block }, h)
      else (
        ProcessResult.event,
        record t {
          state = next;
          current_block = 0;
          latest_event = card_information_event name t.information;
        },
        h,
      )

  -- The cases of sd_card_test_process in which it waits for the card switch.
  unfoldable pub await_card : Bool → State → Bytes → SdCardTest → H → ProcessResult × SdCardTest × H
  unfolding stable_card_state
  await_card inserted next name t h =
      let (stable, polled) = stable_card_state inserted t h in
      let polls = if inserted then polled.matching_polls else 0 in
      if stable
      then (
        ProcessResult.event,
        record polled { state = next; matching_polls = polls; latest_event = message name },
        h,
      )
      else (ProcessResult.running, polled, h)

  -- The result of a driver call on a block.
  abbrev pub after_block :
      State → Bytes → Bool × SdCardInformation × H → SdCardTest → ProcessResult × SdCardTest × H
  after_block next name (went_well, information, h) t =
      if went_well
      then next_block next name (record t { information = information }) h
      else fail (failure_event (driver.last_failure h)) (record t { information = information }) h

  -- sd_card_test_process, by its switch
  unfoldable pub process_state : State → SdCardTest → H → ProcessResult × SdCardTest × H
  unfolding await_card next_block
  process_state announce_removal t h = (
    ProcessResult.event,
    record t {
      state = waiting_for_removal;
      latest_event = message (codes "sd_card_remove_required");
    },
    h,
  )
  process_state waiting_for_removal t h =
      await_card false announce_insertion (codes "sd_card_removed") t h
  process_state announce_insertion t h = (
    ProcessResult.event,
    record t {
      state = waiting_for_insertion;
      latest_event = message (codes "sd_card_insert_required");
    },
    h,
  )
  process_state waiting_for_insertion t h =
      await_card true initializing (codes "sd_card_detected") t h
  process_state initializing t h =
      let (went_well, information, h') = driver.initialize t.information h in
      if not (driver.card_inserted h)
      then fail (removed_event (codes "initialization") 0) t h
      else if not went_well
      then fail (failure_event (driver.last_failure h')) (record t { information = information }) h'
      else (
        ProcessResult.event,
        record t {
          state = writing;
          information = information;
          latest_event = card_information_event (codes "sd_card_initialized") information;
        },
        h',
      )
  process_state writing t h =
      if not (driver.card_inserted h)
      then fail (removed_event (codes "write") t.current_block) t h
      else after_block verifying (codes "sd_card_written")
          (driver.write_test_block t.information t.current_block h) t
  process_state verifying t h =
      if not (driver.card_inserted h)
      then fail (removed_event (codes "verify") t.current_block) t h
      else let (went_well, h') = driver.verify_test_block t.information t.current_block h in
        after_block cleaning_up (codes "sd_card_verified") (went_well, t.information, h') t
  process_state cleaning_up t h =
      if not (driver.card_inserted h)
      then fail (removed_event (codes "cleanup") t.current_block) t h
      else let (went_well, h') = driver.clear_test_block t.information t.current_block h in
        after_block complete (codes "sd_card_cleaned_up") (went_well, t.information, h') t
  process_state complete t h = (ProcessResult.passed, t, h)
  process_state failed t h = (ProcessResult.failed, t, h)

  unfoldable pub sd_card_test_process : SdCardTest → H → ProcessResult × SdCardTest × H
  unfolding process_state
  sd_card_test_process t h = process_state t.state t h

  -- sd_card_test_stop
  unfoldable pub sd_card_test_stop : H → H
  sd_card_test_stop h = driver.shutdown h
