-- ===== src/Examples/Drive.antt =====
-- The SD card driver with a small card of high capacity: firmware/manufacturing_test/drivers/sd_card.
use flight_computer_test.Base.{
  bytes_equal, ℕ, Bool, ◌+◌, ◌*◌, ◌/◌, ◌%◌, ◌^◌, drop, length, true, false, ◌≡◌, refl, inl, inr,
  Option, none, some, List, [], ◌∷◌, ◌++◌, Bytes, ◌==◌, replicate, if◌then◌else◌, arith,
}
use flight_computer_test.Spi.{
  spi_device_initialize, spi_device_select, spi_device_deselect, spi_device_transfer,
  spi_device_set_prescaler,
}
use flight_computer_test.SdCard.Csd.{sd_block_size, sd_card_parse_csd}
use flight_computer_test.SdCard.Component.{
  SdCardTest, writing, SdCardInformation, blank_information, blank_event, sd_card_test_start,
  sd_card_test_process, sd_card_test_stop,
}
use flight_computer_test.SdCard.Whole.{Rests, Turn, card_driver}
use flight_computer_test.SdCard.Whole.Component.{component-Turn}
use flight_computer_test.SdCard.Driver.{
  Outcome, ok, failed, out_of_fuel, SdCardDriver, ◌>>=◌, modify, begin_stage, require_some,
  device_initialize, require, pure, gets, fail, fail_if_unset, give_up, stop, device_select,
  device_deselect, device_transfer, device_set_prescaler,
}
use flight_computer_test.SdCard.Driver.Exchange.{
  wire_address, clock_bytes, transfer_byte, await_response, command, command_frame, deselect_card,
  else_deselect, expect_response, poll_ready, poll_token, read_bytes, select_card,
  wait_for_data_token, wait_ready, within,
}
use flight_computer_test.SdCard.Driver.Start.{
  blank_failure, sd_card_driver_initialize, go_idle, identify_card, interface_condition,
  operating_condition, poll_operating_condition, read_csd, read_information, read_ocr, read_voltage,
  selected_command, set_block_length, use_csd, wait_operating,
}
use flight_computer_test.SdCard.Driver.Blocks.{
  pattern, pattern_from, begin_block, read_block, sd_card_driver_write_test_block,
  sd_card_driver_verify_test_block, sd_card_driver_clear_test_block,
}
use flight_computer_test.SdCard.Driver.Bus.{
  Chip, Event, statics_of, recorded, payloads, start, Orderly,
}
use flight_computer_test.SdCard.Driver.Ensures.{Settles}
use flight_computer_test.SdCard.Driver.Sectors.{written}
use flight_computer_test.SdCard.Driver.Operations.{
  informed, after_write, sector_of, Succeeded, Verified,
}
use flight_computer_test.SdCard.Driver.Initialize.{Identified}
use flight_computer_test.SdCard.Driver.Promise.{
  Reports, initialize-Settles, write_test_block-Settles,
}
use flight_computer_test.SdCard.Driver.Heard.{overheard}
use flight_computer_test.SdCard.Driver.ReadBack.{ReadsBack, verify_test_block-ReadsBack}
use flight_computer_test.SdCard.Driver.Duration.{Timed}
use flight_computer_test.SdCard.Driver.Duration.Ends.{Ends, initialize-Ends, operations-Ends}

-- The bytes that the card sends next, the transfers so far, and the sector that was written last.
record SmallCard : Type 0 where
  answer : Bytes
  transfers : ℕ
  stored : Bytes

-- A register of 1,024 sectors; the answers to the commands.
abbrev small_csd : Bytes
small_csd = 64 ∷ replicate 15 0

abbrev answer_to : ℕ → Bytes → Bytes
answer_to index stored =
    if index == 64
    then 1 ∷ []
    else (if index == 72
        then 1 ∷ 0 ∷ 0 ∷ 1 ∷ 0xAA ∷ []
        else (if index == 119
            then 1 ∷ []
            else (if index == 122
                then 0 ∷ 0x40 ∷ 0 ∷ 0 ∷ 0 ∷ []
                else (if index == 73
                    then 0 ∷ 0xFE ∷ small_csd ++ 0 ∷ 0 ∷ []
                    else (if index == 81 then 0 ∷ 0xFE ∷ stored ++ 0 ∷ 0 ∷ [] else 0 ∷ [])))))

-- What a transfer returns, and what the card sends and stores after it.
abbrev received : Bytes → Bytes → Bytes
received (byte ∷ []) [] = 0xFF ∷ []
received (byte ∷ []) (b ∷ rest) = b ∷ []
received tx answer = tx

abbrev next_answer : Bytes → SmallCard → Bytes
next_answer (byte ∷ []) card = drop 1 card.answer
next_answer (byte ∷ second ∷ third ∷ fourth ∷ fifth ∷ sixth ∷ []) card = answer_to byte card.stored
next_answer tx card = 0xFF ∷ 0xFF ∷ 5 ∷ []

abbrev next_stored : Bytes → Bytes → Bytes
next_stored tx stored = if length tx == sd_block_size then tx else stored

abbrev exchange : Bytes → SmallCard → Option Bytes × SmallCard
exchange tx card = (
  some (received tx card.answer),
  record {
    answer = next_answer tx card;
    transfers = card.transfers + 1;
    stored = next_stored tx card.stored;
  },
)

abbrev small_card : Chip SmallCard
small_card = record {
  initialize = λ k. (true, k);
  select = λ k. (true, k);
  deselect = λ k. k;
  transfer = exchange;
  set_prescaler = λ _ k. (true, k);
}

abbrev ticks : List Event × SmallCard → ℕ
ticks (log, card) = card.transfers / 1000000 % 2 ^ 32

abbrev small_information : SdCardInformation
small_information = record {
  sector_count = 1024;
  test_sector = 1008;
  checksum = 0;
  high_capacity = true;
}

-- The board after a reset: no device yet, and nothing on the bus.
abbrev reset : SdCardDriver (List Event × SmallCard)
reset = record {
  device = none;
  high_capacity = false;
  write_checksum = 0;
  verify_checksum = 0;
  active_stage = none;
  last_failure = blank_failure;
  information = blank_information;
  hardware = ([], record { answer = []; transfers = 0; stored = [] });
}

-- A driver that has initialized the card.
abbrev ready : SdCardDriver (List Event × SmallCard)
ready = record reset {
  device = some (recorded small_card);
  high_capacity = true;
  information = small_information;
}

-- The card has 1,024 sectors, and the test area starts at the sector 1,008.
initialization :
    (sd_card_driver_initialize ticks 3
      (some (recorded small_card))
      (some blank_information)
      reset).1.information
    ≡ small_information
unfolding sd_card_driver_initialize ◌>>=◌ modify begin_stage require_some device_initialize require
    pure gets fail fail_if_unset give_up stop device_select device_deselect device_transfer
    device_set_prescaler spi_device_initialize spi_device_select spi_device_deselect
    spi_device_transfer spi_device_set_prescaler recorded clock_bytes transfer_byte
    sd_card_parse_csd await_response command command_frame deselect_card else_deselect
    expect_response poll_ready poll_token read_bytes select_card wait_for_data_token wait_ready
    within go_idle identify_card interface_condition operating_condition poll_operating_condition
    read_csd read_information read_ocr read_voltage selected_command set_block_length use_csd
    wait_operating
initialization = refl

initialize-Settles_example :
    Settles
      (λ _ s.
        (i : SdCardInformation) × (some blank_information ≡ some i)
        × Identified small_card (informed i (statics_of reset)) [] s)
      (Reports small_card)
      Unit
      (sd_card_driver_initialize ticks 3
        (some (recorded small_card))
        (some blank_information)
        reset)
unfolding payloads
initialize-Settles_example =
    initialize-Settles small_card ticks 3 (some blank_information) reset (inl refl) start

write_test_block-Settles_example :
    Settles
      (λ _.
        Succeeded small_card
          (some small_information)
          7
          (after_write 7 (statics_of ready))
          (λ i. written true (sector_of i 7) (pattern (sector_of i 7)) []))
      (Reports small_card)
      Unit
      (sd_card_driver_write_test_block ticks 3 (some small_information) 7 ready)
unfolding payloads
write_test_block-Settles_example =
    write_test_block-Settles small_card ticks 3 (some small_information) 7 ready refl start

-- The same card, overheard, which holds the pattern of the block 3.
abbrev holding : SdCardDriver (List Event × (Bytes × SmallCard))
holding = record {
  device = some (recorded (overheard small_card));
  high_capacity = true;
  write_checksum = 0;
  verify_checksum = 0;
  active_stage = none;
  last_failure = blank_failure;
  information = small_information;
  hardware = ([], ([], record { answer = []; transfers = 0; stored = pattern 1011 }));
}

abbrev overheard_ticks : List Event × (Bytes × SmallCard) → ℕ
overheard_ticks (log, (heard, card)) = card.transfers / 1000000 % 2 ^ 32

abbrev succeeds : {A : Type 0} → Outcome A → Bool
succeeds (ok a) = true
succeeds failed = false
succeeds out_of_fuel = false

-- Its verification succeeds.
verification :
    succeeds
      (sd_card_driver_verify_test_block overheard_ticks 3 (some small_information) 3 holding).0
    ≡ true
unfolding sd_card_driver_verify_test_block begin_block read_block pattern pattern_from wire_address
    ◌>>=◌ modify begin_stage require_some require pure gets fail fail_if_unset give_up stop
    device_select device_deselect device_transfer spi_device_select spi_device_deselect
    spi_device_transfer recorded transfer_byte await_response command command_frame deselect_card
    else_deselect expect_response poll_ready poll_token read_bytes select_card wait_for_data_token
    wait_ready within selected_command bytes_equal
verification = refl

verify_test_block-ReadsBack_example :
    Settles
      (λ _ s.
        Verified (overheard small_card) (statics_of holding) [] (some small_information) 3 s
        × ReadsBack small_card overheard_ticks 3 (some small_information) 3 s)
      (Reports (overheard small_card))
      Unit
      (sd_card_driver_verify_test_block overheard_ticks 3 (some small_information) 3 holding)
unfolding payloads
verify_test_block-ReadsBack_example =
    verify_test_block-ReadsBack small_card overheard_ticks 3 (some small_information) 3 holding refl
      start

-- Each transfer takes a nanosecond, and nothing else takes time.
abbrev nanoseconds : List Event × SmallCard → ℕ
nanoseconds (log, card) = card.transfers

abbrev enough_fuel : ℕ
enough_fuel = 1001000001

small_card-Timed : Timed (recorded small_card) ticks nanoseconds 1
unfolding recorded spi_device_initialize spi_device_select spi_device_deselect spi_device_transfer
    spi_device_set_prescaler
small_card-Timed = record {
  ticks = λ h. refl;
  short = omega arith;
  initializes = λ h. (omega arith, omega arith);
  selects = λ h. (omega arith, omega arith);
  deselects = λ h. (omega arith, omega arith);
  transfers = λ tx h. (omega arith, omega arith);
  prescales = λ p h. (omega arith, omega arith);
}

initialize-Ends_example : Ends nanoseconds (7501000000 + 420 * 1) 0 (
    sd_card_driver_initialize ticks enough_fuel
      (some (recorded small_card))
      (some blank_information)
      reset)
initialize-Ends_example =
    initialize-Ends (recorded small_card) ticks nanoseconds 1 enough_fuel small_card-Timed
      (omega arith) (some blank_information) reset

operations-Ends_example :
    Ends nanoseconds
      (3003000000 + 100 * 1)
      0
      (sd_card_driver_write_test_block ticks enough_fuel (some small_information) 7 ready)
    × Ends nanoseconds
        (1501000000 + 550 * 1)
        0
        (sd_card_driver_verify_test_block ticks enough_fuel (some small_information) 7 ready)
    × Ends nanoseconds
        (3003000000 + 100 * 1)
        0
        (sd_card_driver_clear_test_block ticks enough_fuel (some small_information) 7 ready)
operations-Ends_example =
    operations-Ends (recorded small_card) ticks nanoseconds 1 enough_fuel small_card-Timed
      (omega arith) (some small_information) 7 ready refl

-- The test in the state that writes the last block.
abbrev writing_last : SdCardTest
writing_last = record {
  state = writing;
  next_poll_at = 0;
  matching_polls = 3;
  current_block = 7;
  latest_event = blank_event;
  information = small_information;
}

writing_last-Rests : Rests small_card writing_last ready
writing_last-Rests = record { device = inr refl; bus = start; ready = inr refl }

component-Turn_example :
    let driver = card_driver small_card ticks (λ _. true) enough_fuel in
    Rests small_card (sd_card_test_start driver writing_last ready) ready
    × Turn small_card (sd_card_test_process driver writing_last ready)
    × Orderly false (sd_card_test_stop driver ready).hardware.0
component-Turn_example =
    component-Turn small_card ticks nanoseconds (λ _. true) 1 enough_fuel small_card-Timed
      (omega arith) writing_last ready writing_last-Rests
