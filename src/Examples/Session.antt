-- ===== src/Examples/Session.antt =====
-- The session's theorems: a stop request while the SD card test is active, and what follows.
use flight_computer_test.Base.{
  ℕ, ◌+◌, ◌≡◌, ◌≤◌, ◌⊎◌, refl, false, none, some, [], length, Bytes, memchr, bytes_equal, arith,
}
use flight_computer_test.Base.Text.{codes}
use flight_computer_test.Base.Int.{pos}
use flight_computer_test.Registry.{ComponentEvent, EventKind, ProcessResult, Definition}
use flight_computer_test.Runner.{Runner, initialize}
use flight_computer_test.Request.{Request, RequestType}
use flight_computer_test.Request.Parse.{json_protocol_parse_request}
use flight_computer_test.Request.Parse.Accepted.{IsAccepted, Shape}
use flight_computer_test.Response.{
  SessionMetadata, json_protocol_build_test_response, json_protocol_build_start_test_response,
  json_protocol_build_test_event,
}
use flight_computer_test.Response.Clean.{Prints, Prints-le, literal}
use flight_computer_test.Response.Fits.{
  Builds, IsPrintable, json_protocol_build_start_test_response-Builds,
}
use flight_computer_test.Response.Events.{
  IsReportable, tells, json_protocol_build_test_event-Builds,
}
use flight_computer_test.SdCard.Component.{blank_event}
use flight_computer_test.Session.{
  Session, answer_request, process_line, process_active, session_protocol_process, run_request,
  stop_request, error_response, session_protocol_line_capacity,
}
use flight_computer_test.Transport.{can_queue_line}
use flight_computer_test.Session.Answer.{Serves, busy}
use flight_computer_test.Session.Loop.{IsValid, QueuesOne, Caught, process_line-QueuesOne}
use flight_computer_test.Session.Active.{
  Turn, Reports, process_active-Turn, session_protocol_process-Caught,
}
use flight_computer_test.Session.Commands.{Runs, run_request-Runs, stop_request_lem}
use flight_computer_test.Examples.Wire.{
  one_line, one_line-IsValid, nothing_queued, nothing_queued-IsValid,
}
use flight_computer_test.Examples.Card.{idle_code}
use flight_computer_test.Examples.Protocol.{tokenize, tokenize-in_line, stop_line, stop_nine}

abbrev metadata : SessionMetadata
metadata = record {
  uid = codes "00112233445566778899AABB";
  mcu_model = codes "STM32F405RG";
  board_id = codes "flightcomputer_v1";
  board_name = codes "Flight Computer";
  board_revision = codes "v1";
  firmware_version = codes "0.1.0";
  firmware_git_revision = codes "abc1234";
  capability_at = λ _. codes "sd_card";
  capability_count = 6;
}

word :
    (n : ℕ) (text : Bytes)
    → length text ≤ n
    → memchr text b'\n' ≡ false
    → memchr text b'\r' ≡ false
    → Prints n text
word n text l a b = Prints-le l (literal text a b)

metadata-IsPrintable : IsPrintable metadata
unfolding memchr
metadata-IsPrintable = record {
  uid = word 64 (codes "00112233445566778899AABB") (omega arith) refl refl;
  mcu_model = word 64 (codes "STM32F405RG") (omega arith) refl refl;
  board_id = word 64 (codes "flightcomputer_v1") (omega arith) refl refl;
  board_name = word 64 (codes "Flight Computer") (omega arith) refl refl;
  board_revision = word 64 (codes "v1") (omega arith) refl refl;
  firmware_version = word 64 (codes "0.1.0") (omega arith) refl refl;
  firmware_git_revision = word 64 (codes "abc1234") (omega arith) refl refl;
  capability_at = λ _ _. word 32 (codes "sd_card") (omega arith) refl refl;
  capability_count = omega arith;
}

json_protocol_build_start_test_response-Builds_example :
    Builds 4000 (json_protocol_build_start_test_response 1 metadata 4097)
json_protocol_build_start_test_response-Builds_example =
    json_protocol_build_start_test_response-Builds 1 metadata 4097 (omega arith) (omega arith)
      metadata-IsPrintable

-- The failure that the card test reports when the card is pulled out.
abbrev pulled : ComponentEvent
pulled = record blank_event {
  kind = EventKind.failure;
  name = some (codes "component_failure");
  failure_stage = some (codes "write");
  failure_reason = some (codes "card_removed");
  failure_code = pos 3;
}

pulled-IsReportable : IsReportable pulled
unfolding memchr
pulled-IsReportable = record {
  name =
      tells (codes "component_failure") refl
        (word 48 (codes "component_failure") (omega arith) refl refl);
  acceleration = (omega arith, omega arith, omega arith);
  gyroscope = (omega arith, omega arith, omega arith);
  pressure = omega arith;
  temperature = omega arith;
  sector_count = omega arith;
  test_sector = omega arith;
  checksum = omega arith;
  failure_texts = λ _. (
    tells (codes "write") refl (word 48 (codes "write") (omega arith) refl refl),
    tells (codes "card_removed") refl (word 48 (codes "card_removed") (omega arith) refl refl),
  );
  failure_code = omega arith;
}

json_protocol_build_test_event-Builds_example :
    Builds 512 (json_protocol_build_test_event 5 (some (codes "sd_card")) (some pulled) 4097)
unfolding memchr
json_protocol_build_test_event-Builds_example =
    json_protocol_build_test_event-Builds 5 (codes "sd_card") pulled 4097 (omega arith)
      (omega arith) (word 32 (codes "sd_card") (omega arith) refl refl) pulled-IsReportable

-- A test that reports what happened, on a world that counts the calls of its cleanup.
abbrev card_test : Definition ℕ
card_test = record {
  type = codes "sd_card";
  start = λ _ w. w;
  process = λ w. (ProcessResult.event, w);
  event = some (λ _. pulled);
  stop = λ w. w + 1;
}

abbrev serving : Runner ℕ
serving = record { active_definition = some card_test; active_command_id = 5 }

abbrev session : Session ℕ
session = record { runner = serving; world = 0; received = one_line; transmit = nothing_queued }

session-IsValid : IsValid session
unfolding memchr
session-IsValid = record {
  received = one_line-IsValid;
  transmit = nothing_queued-IsValid;
  runner =
      busy card_test refl (word 32 (codes "sd_card") (omega arith) refl refl) (omega arith)
        (omega arith);
}

process_line-QueuesOne_example :
    let parsed = json_protocol_parse_request tokenize stop_line in
    QueuesOne
      (answer_request metadata idle_code parsed serving 0).response
      nothing_queued
      (process_line tokenize metadata idle_code stop_line session).transmit
    × Serves (process_line tokenize metadata idle_code stop_line session).runner
process_line-QueuesOne_example =
    process_line-QueuesOne tokenize metadata idle_code stop_line session tokenize-in_line
      metadata-IsPrintable session-IsValid (unfold can_queue_line in refl)

session_protocol_process-Caught_example :
    (s1 : Session ℕ) × Caught tokenize metadata idle_code session s1
    × (session_protocol_process tokenize metadata idle_code session ≡ some (process_active s1))
    × IsValid (process_active s1)
session_protocol_process-Caught_example =
    session_protocol_process-Caught tokenize metadata idle_code session tokenize-in_line
      metadata-IsPrintable session-IsValid

process_active-Turn_example : Turn card_test ProcessResult.event session (process_active session)
unfolding memchr
process_active-Turn_example =
    process_active-Turn card_test session refl (word 32 (codes "sd_card") (omega arith) refl refl)
      (omega arith) (λ _. Reports.reports (λ _. pulled) refl (λ _. pulled-IsReportable))
      session-IsValid (unfold can_queue_line in refl)

abbrev run_card : Request
run_card = record {
  type = RequestType.run_component_test;
  command_id = 6;
  test_uuid = [];
  test_type = codes "sd_card";
  rgb_colour_present = false;
  red = 0;
  green = 0;
  blue = 0;
}

run_card-IsAccepted : IsAccepted run_card
run_card-IsAccepted = record {
  id_positive = omega arith;
  id_fits = omega arith;
  colour = (omega arith, omega arith, omega arith);
  shape =
      Shape.run refl refl
        (record { characters = ground arith; nonempty = omega arith; short = omega arith })
        (unfold bytes_equal in refl);
}

run_request-Runs_example :
    Runs idle_code run_card initialize 0 (run_request idle_code run_card initialize 0)
run_request-Runs_example = run_request-Runs idle_code run_card initialize 0 run_card-IsAccepted

stop_request_lem_example :
    let outcome = stop_request stop_nine serving 0 in
    ((d : Definition ℕ) × (serving.active_definition ≡ some d)
      × (outcome.response
          ≡ json_protocol_build_test_response
              (codes "TEST_STOPPED")
              9
              d.type
              (codes "stopped")
              session_protocol_line_capacity)
      × (outcome.runner ≡ initialize)
      × (outcome.world ≡ d.stop 0))
    ⊎ ((serving.active_definition ≡ none)
        × (outcome ≡ error_response 9 (codes "no_active_test") serving 0))
stop_request_lem_example = stop_request_lem stop_nine serving 0
