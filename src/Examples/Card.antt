-- ===== src/Examples/Card.antt =====
-- The theorems on SD cards, numbers, the registry and the runner at concrete inputs.
use flight_computer_test.Base.{
  ℕ, ◌≡◌, refl, true, false, some, List, Bytes, [], ◌∷◌, replicate, arith,
}
use flight_computer_test.Base.Text.{codes}
use flight_computer_test.Base.Decimal.{decimal}
use flight_computer_test.Response.{format_uint64}
use flight_computer_test.Response.Uint64.{format_uint64-decimal}
use flight_computer_test.SdCard.Csd.{sd_card_parse_csd, Reads, sd_card_parse_csd-Reads}
use flight_computer_test.SdCard.Csd.Fields.{sectors_of, sd_card_parse_csd-sectors_of}
use flight_computer_test.SdCard.Component.{
  SdCardTest, State, complete, blank_event, blank_information, sd_card_test_start,
  sd_card_test_process,
}
use flight_computer_test.SdCard.Component.Passes.{
  Input, bench, run, after_clearing, passed-after_clearing, run-complete,
}
use flight_computer_test.Registry.{
  ProcessResult, Parameters, Definition, Externs, production_tests, component_registry_find,
}
use flight_computer_test.Registry.Lookup.{Answers, component_registry_find-Answers}
use flight_computer_test.Runner.{Runner, initialize, active_type}
use flight_computer_test.Runner.Lifecycle.{
  Call, Lives, Request, service, cancel, recording, perform_all, perform_all-Lives, start_lem,
}
use flight_computer_test.Runner.Lifecycle as Lifecycle

-- The register of a card of 7,710,720 sectors, with the two bits ahead of C_SIZE set.
abbrev some_register : Bytes
some_register =
    0x40 ∷ 0x0E ∷ 0 ∷ 0x32 ∷ 0x5B ∷ 0x59 ∷ 0 ∷ 0xC0 ∷ 0x1D ∷ 0x69 ∷ 0x7F ∷ 0x80 ∷ 0x0A ∷ 0x40 ∷ 0
    ∷ 1 ∷ []

sd_card_parse_csd-sectors_of_example : sd_card_parse_csd some_register ≡ sectors_of some_register
sd_card_parse_csd-sectors_of_example =
    sd_card_parse_csd-sectors_of some_register (refl, ground arith)

sd_card_parse_csd-Reads_example : Reads (replicate 16 200) (sd_card_parse_csd (replicate 16 200))
sd_card_parse_csd-Reads_example = sd_card_parse_csd-Reads (replicate 16 200) refl (ground arith)

format_uint64-decimal_example : format_uint64 62333952 ≡ decimal 62333952
format_uint64-decimal_example = format_uint64-decimal 62333952 (omega arith)

abbrev fresh : SdCardTest
fresh = record {
  state = State.failed;
  next_poll_at = 0;
  matching_polls = 0;
  current_block = 0;
  latest_event = blank_event;
  information = blank_information;
}

-- A call with the switch in a state, at a time.
abbrev call : ℕ → Input
call time = record {
  tick = time;
  inserted = true;
  succeeds = true;
  information = blank_information;
}

abbrev no_card : Input
no_card = record { tick = 0; inserted = false; succeeds = false; information = blank_information }

-- Insertion asked for, three polls of the inserted card, and 25 calls on it.
abbrev session : List Input
session = call 0 ∷ call 0 ∷ call 20 ∷ call 40 ∷ replicate 25 (call 60)

passed-after_clearing_example :
    (run session (sd_card_test_start bench fresh (no_card, [])) []).1 ≡ after_clearing
unfolding run sd_card_test_start sd_card_test_process
passed-after_clearing_example = passed-after_clearing fresh no_card (call 60) session refl

abbrev detected : SdCardTest
detected = record fresh { state = State.initializing }

run-complete_example : (run (replicate 25 (call 60)) detected []).0.state ≡ complete
run-complete_example =
    run-complete (replicate 25 (call 60)) detected [] refl refl (ground arith) refl

-- Component code that does nothing, on a world of no interest.
abbrev pub idle_code : Externs ℕ
idle_code = record {
  status_led_red_start = λ _ w. w;
  status_led_green_start = λ _ w. w;
  status_led_process = λ w. (ProcessResult.running, w);
  status_led_stop = λ w. w;
  rgb_led_test_start = λ _ w. w;
  rgb_led_test_process = λ w. (ProcessResult.running, w);
  rgb_led_test_event = λ _. blank_event;
  rgb_led_test_stop = λ w. w;
  bmi270_test_start = λ _ w. w;
  bmi270_test_process = λ w. (ProcessResult.running, w);
  bmi270_test_event = λ _. blank_event;
  bmi270_test_stop = λ w. w;
  bmp388_test_start = λ _ w. w;
  bmp388_test_process = λ w. (ProcessResult.running, w);
  bmp388_test_event = λ _. blank_event;
  bmp388_test_stop = λ w. w;
  sd_card_test_start = λ _ w. w;
  sd_card_test_process = λ w. (ProcessResult.running, w);
  sd_card_test_event = λ _. blank_event;
  sd_card_test_stop = λ w. w;
}

component_registry_find-Answers_example :
    Answers
      (production_tests idle_code)
      (codes "imu")
      (component_registry_find (some (production_tests idle_code)) (some (codes "imu")))
component_registry_find-Answers_example =
    component_registry_find-Answers (production_tests idle_code) (codes "imu")

abbrev no_colour : Parameters
no_colour = record { rgb_colour_present = false; red = 0; green = 0; blue = 0 }

abbrev log_test : Definition (List Call)
log_test = recording (codes "imu") (λ _. ProcessResult.passed)

abbrev free_runner : Runner (List Call)
free_runner = initialize

abbrev asked : List Request
asked =
    Lifecycle.run (codes "imu") (λ _. ProcessResult.passed) 7 no_colour
    ∷ service
    ∷ Lifecycle.run (codes "sd_card") (λ _. ProcessResult.running) 8 no_colour
    ∷ cancel
    ∷ []

perform_all-Lives_example :
    let (runner, log) = perform_all asked (initialize, []) in Lives (active_type runner) log
perform_all-Lives_example = perform_all-Lives asked
