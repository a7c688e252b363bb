-- ===== src/Session.antt =====
-- firmware/manufacturing_test/protocol/session_protocol.c: requests and the active test meet the
-- transport here. `W` is what the component code and the hardware behind it keep.
pub mod Metadata
pub mod Answer
pub mod Loop
pub mod Commands
pub mod Active
use flight_computer_test.Base.{
  ℕ, zero, suc, Bool, true, false, ◌&&◌, Option, none, some, List, Bytes, if◌then◌else◌,
}
use flight_computer_test.Base.Text.{codes}
use flight_computer_test.Registry.{
  Externs, Definition, production_tests, component_registry_find, Parameters,
}
use flight_computer_test.Runner.{
  Runner, RunnerState, Update, no_change, event, passed, failed, state, active_type,
  active_command_id, current_event,
}
use flight_computer_test.Runner as Runner
use flight_computer_test.Request.{
  Token, Request, RequestType, start_test, run_component_test, stop_component_test, invalid,
  unsupported,
}
use flight_computer_test.Request.Parse.{
  Parsed, ok, rejected, out_of_range, out_of_fuel, json_protocol_parse_request,
}
use flight_computer_test.Response.{
  SessionMetadata, json_protocol_build_start_test_response, json_protocol_build_error_response,
  json_protocol_build_test_response, json_protocol_build_test_event,
}
use flight_computer_test.Transport.{
  ReceivedLines, TransmitLines, line_queue_depth, LineResult, unavailable, available,
  buffer_too_small, read_line, queue_line, can_queue_line,
}

-- SESSION_PROTOCOL_LINE_CAPACITY
abbrev pub session_protocol_line_capacity : ℕ
session_protocol_line_capacity = 4097

-- The session's own state and what it acts on: the two line queues of the transport.
pub record Session (W : Type 0) : Type 0 where
  pub runner : Runner W
  pub world : W
  pub received : ReceivedLines
  pub transmit : TransmitLines

-- The text of a response that was built, and what the request did to the test.
pub record Outcome (W : Type 0) : Type 0 where
  pub response : Option Bytes
  pub runner : Runner W
  pub world : W

-- The parameters that process_line hands to the test.
abbrev pub parameters_of : Request → Parameters
parameters_of request = record {
  rgb_colour_present = request.rgb_colour_present;
  red = request.red;
  green = request.green;
  blue = request.blue;
}

module _ {W : Type 0} where
  unfoldable pub error_response : ℕ → Bytes → Runner W → W → Outcome W
  error_response command_id error_code runner w = record {
    response =
        json_protocol_build_error_response command_id error_code session_protocol_line_capacity;
    runner = runner;
    world = w;
  }

  -- What process_line does about the definition that it has looked up.
  unfoldable pub start_found : Request → Runner W → W → Option (Definition W) → Outcome W
  unfolding error_response
  start_found request runner w none =
      error_response request.command_id (codes "unsupported_test_type") runner w
  start_found request runner w (some definition) =
      let (_, runner', w') =
        Runner.start runner (some definition) request.command_id (parameters_of request) w in
      record {
        response =
            json_protocol_build_test_response (codes "TEST_STARTED") request.command_id
              definition.type (codes "running") session_protocol_line_capacity;
        runner = runner';
        world = w';
      }

  -- The branch of process_line for RUN_COMPONENT_TEST.
  unfoldable pub run_request : Externs W → Request → Runner W → W → Outcome W
  unfolding error_response start_found
  run_request externs request runner w = elim (state runner) [
    | RunnerState.running ↦ error_response request.command_id (codes "test_already_active") runner w
    | RunnerState.idle ↦
        start_found request runner w
          (component_registry_find (some (production_tests externs)) (some request.test_type))
  ]

  -- The branch of process_line for STOP_COMPONENT_TEST.
  unfoldable pub stop_request : Request → Runner W → W → Outcome W
  unfolding error_response
  stop_request request runner w = elim (active_type runner) [
    | none ↦ error_response request.command_id (codes "no_active_test") runner w
    | some type ↦
        let (_, runner', w') = Runner.stop runner w in
        record {
          response =
              json_protocol_build_test_response (codes "TEST_STOPPED") request.command_id type
                (codes "stopped") session_protocol_line_capacity;
          runner = runner';
          world = w';
        }
  ]

  -- process_line behind its parser; a run of the parser that does not end has no answer.
  unfoldable pub answer_request :
      SessionMetadata → Externs W → Parsed Request → Runner W → W → Outcome W
  unfolding error_response run_request stop_request
  answer_request metadata externs rejected runner w =
      error_response 0 (codes "invalid_request") runner w
  answer_request metadata externs out_of_range runner w = record {
    response = none;
    runner = runner;
    world = w;
  }
  answer_request metadata externs out_of_fuel runner w = record {
    response = none;
    runner = runner;
    world = w;
  }
  answer_request metadata externs (ok request) runner w = elim request.type [
    | start_test ↦ record {
      response =
          json_protocol_build_start_test_response request.command_id metadata
            session_protocol_line_capacity;
      runner = runner;
      world = w;
    }
    | run_component_test ↦ run_request externs request runner w
    | stop_component_test ↦ stop_request request runner w
    | invalid ↦ error_response request.command_id (codes "unsupported_message_type") runner w
    | unsupported ↦ error_response request.command_id (codes "unsupported_message_type") runner w
  ]

-- queue_response, for a response that was built
unfoldable pub queue_response : Option Bytes → TransmitLines → TransmitLines
queue_response none transmit = transmit
queue_response (some line) transmit = (queue_line line transmit).1

-- jsmn_init and jsmn_parse of the vendored tokenizer, on a line and the room for tokens: the tokens,
-- or `none` for a negative result
abbrev pub JsmnParse : Type 0
JsmnParse = Bytes → ℕ → Option (List Token)

module _ {W : Type 0} (jsmn_parse : JsmnParse) (metadata : SessionMetadata)
    (externs : Externs W) where
  -- process_line
  unfoldable pub process_line : Bytes → Session W → Session W
  unfolding answer_request queue_response
  process_line line s =
      let outcome =
        answer_request metadata externs (json_protocol_parse_request jsmn_parse line) s.runner
          s.world in
      record s {
        runner = outcome.runner;
        world = outcome.world;
        transmit = queue_response outcome.response s.transmit;
      }

  -- The loop of session_protocol_process; `none` is a loop that goes on.
  unfoldable pub process_lines : ℕ → Session W → Option (Session W)
  unfolding process_line
  process_lines zero s = none
  process_lines (suc fuel) s =
      let (result, received) = read_line session_protocol_line_capacity s.received in
      if can_queue_line s.transmit
      then elim result [
        | available line ↦ process_lines fuel (process_line line (record s { received = received }))
        | unavailable ↦ some (record s { received = received })
        | buffer_too_small ↦ some (record s { received = received })
      ]
      else some s

-- The response to an update of the active test, whose event is that of the runner behind it.
unfoldable pub update_response :
    {W : Type 0} → Update → ℕ → Option Bytes → Runner W → W → Option Bytes
update_response no_change command_id type runner w = none
update_response event command_id type runner w =
    json_protocol_build_test_event command_id type (current_event runner w)
      session_protocol_line_capacity
update_response passed command_id none runner w = none
update_response passed command_id (some type) runner w =
    json_protocol_build_test_response (codes "TEST_COMPLETED") command_id type (codes "passed")
      session_protocol_line_capacity
update_response failed command_id none runner w = none
update_response failed command_id (some type) runner w =
    json_protocol_build_test_response (codes "TEST_COMPLETED") command_id type (codes "failed")
      session_protocol_line_capacity

-- The part of session_protocol_process behind its loop.
unfoldable pub process_active : {W : Type 0} → Session W → Session W
unfolding queue_response update_response
process_active s =
    if can_queue_line s.transmit
    then elim (state s.runner) [
      | RunnerState.idle ↦ s
      | RunnerState.running ↦
          let (update, runner, w) = Runner.process s.runner s.world in
          record s {
            runner = runner;
            world = w;
            transmit =
                queue_response
                  (update_response update (active_command_id s.runner) (active_type s.runner) runner
                    w)
                  s.transmit;
          }
    ]
    else s

-- session_protocol_initialize
unfoldable pub session_protocol_initialize : {W : Type 0} → Session W → Session W
session_protocol_initialize s = record s { runner = Runner.initialize }

-- session_protocol_process: at most as many lines wait as the queue has places.
unfoldable pub session_protocol_process :
    {W : Type 0} (jsmn_parse : JsmnParse) (metadata : SessionMetadata) (externs : Externs W)
    → Session W
    → Option (Session W)
unfolding process_lines process_active
session_protocol_process jsmn_parse metadata externs s =
    elim (process_lines jsmn_parse metadata externs (suc line_queue_depth) s) [
      | none ↦ none
      | some s' ↦ some (process_active s')
    ]
