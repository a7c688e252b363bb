-- ===== src/Response.antt =====
-- firmware/manufacturing_test/protocol/json_response_builder.c and json_component_events.c: the
-- lines that the firmware answers with. snprintf into `capacity` bytes writes the whole text and a
-- NUL, or the text does not fit and the builder fails.
pub mod Clean
pub mod Fits
pub mod Uint64
pub mod Events
use flight_computer_test.Base.{
  ℕ, zero, suc, ◌+◌, ◌-◌, ◌/◌, ◌%◌, Bool, ◌||◌, Option, none, some, List, [], ◌∷◌, ◌++◌, Bytes,
  length, get_or, set, leb, ◌==◌, if◌then◌else◌,
}
use flight_computer_test.Base.Text.{codes}
use flight_computer_test.Base.Decimal.{decimal}
use flight_computer_test.Base.Int.{ℤ, signed_decimal}
use flight_computer_test.Registry.{
  ComponentEvent, EventKind, message, imu_sample, barometer_sample, sd_card_info, failure,
}

-- session_metadata_t
pub record SessionMetadata : Type 0 where
  pub uid : Bytes
  pub mcu_model : Bytes
  pub board_id : Bytes
  pub board_name : Bytes
  pub board_revision : Bytes
  pub firmware_version : Bytes
  pub firmware_git_revision : Bytes
  pub capability_at : ℕ → Bytes
  pub capability_count : ℕ

-- append_format: the text so far with the formatted piece behind it
unfoldable pub append_format : ℕ → Bytes → Bytes → Option Bytes
append_format capacity text piece =
    if leb capacity (length text)
    then none
    else if leb (capacity - length text) (length piece)
    then none
    else some (text ++ piece)

infixl 5 ◌>>=◌
abbrev ◌>>=◌ : Option Bytes → (Bytes → Option Bytes) → Option Bytes
none >>= f = none
some text >>= f = f text

-- The loop over the capabilities, `left` of them from `index` on.
unfoldable pub append_capabilities : ℕ → SessionMetadata → ℕ → ℕ → Bytes → Option Bytes
append_capabilities capacity metadata zero index text = some text
append_capabilities capacity metadata (suc left) index text =
    append_format capacity text (
      (if index == 0 then [] else codes ",")
      ++ codes "\""
      ++ metadata.capability_at index
      ++ codes "\"")
    >>= append_capabilities capacity metadata left (index + 1)

abbrev pub start_test_head : ℕ → SessionMetadata → Bytes
start_test_head command_id metadata =
    codes "{\"protocol_version\":1,\"type\":\"START_TEST_RESPONSE\",\"command_id\":"
    ++ decimal command_id
    ++ codes ",\"status\":\"ok\",\"device\":{\"uid\":\""
    ++ metadata.uid
    ++ codes "\",\"mcu\":\""
    ++ metadata.mcu_model
    ++ codes "\",\"board_id\":\""
    ++ metadata.board_id
    ++ codes "\",\"board_name\":\""
    ++ metadata.board_name
    ++ codes "\",\"board_revision\":\""
    ++ metadata.board_revision
    ++ codes "\"},\"firmware\":{\"version\":\""
    ++ metadata.firmware_version
    ++ codes "\",\"git_revision\":\""
    ++ metadata.firmware_git_revision
    ++ codes "\"},\"capabilities\":["

-- json_protocol_build_start_test_response
unfoldable pub json_protocol_build_start_test_response : ℕ → SessionMetadata → ℕ → Option Bytes
unfolding append_capabilities append_format
json_protocol_build_start_test_response command_id metadata capacity =
    append_format capacity [] (start_test_head command_id metadata)
    >>= append_capabilities capacity metadata metadata.capability_count 0
    >>= λ text. append_format capacity text (codes "]}")

-- One snprintf into the whole buffer: `none` if the text and its NUL do not fit.
unfoldable pub formatted : ℕ → Bytes → Option Bytes
formatted capacity text = if leb capacity (length text) then none else some text

abbrev pub error_text : ℕ → Bytes → Bytes
error_text command_id error_code =
    codes "{\"protocol_version\":1,\"type\":\"ERROR\",\"command_id\":"
    ++ decimal command_id
    ++ codes ",\"error\":\""
    ++ error_code
    ++ codes "\"}"

-- json_protocol_build_error_response
unfoldable pub json_protocol_build_error_response : ℕ → Bytes → ℕ → Option Bytes
unfolding formatted
json_protocol_build_error_response command_id error_code capacity =
    formatted capacity (error_text command_id error_code)

abbrev pub test_text : Bytes → ℕ → Bytes → Bytes → Bytes
test_text response_type command_id test_type status =
    codes "{\"protocol_version\":1,\"type\":\""
    ++ response_type
    ++ codes "\",\"command_id\":"
    ++ decimal command_id
    ++ codes ",\"test_type\":\""
    ++ test_type
    ++ codes "\",\"status\":\""
    ++ status
    ++ codes "\"}"

-- json_protocol_build_test_response
unfoldable pub json_protocol_build_test_response : Bytes → ℕ → Bytes → Bytes → ℕ → Option Bytes
unfolding formatted
json_protocol_build_test_response response_type command_id test_type status capacity =
    formatted capacity (test_text response_type command_id test_type status)

abbrev pub event_head : ℕ → Bytes → Bytes → Bytes
event_head command_id test_type name =
    codes "{\"protocol_version\":1,\"type\":\"TEST_EVENT\",\"command_id\":"
    ++ decimal command_id
    ++ codes ",\"test_type\":\""
    ++ test_type
    ++ codes "\",\"event\":\""
    ++ name
    ++ codes "\""

-- build_imu_event
unfoldable pub imu_text : ComponentEvent → Bytes
imu_text event =
    codes ",\"data\":{\"acceleration_raw\":{\"x\":"
    ++ signed_decimal event.acceleration_x
    ++ codes ",\"y\":"
    ++ signed_decimal event.acceleration_y
    ++ codes ",\"z\":"
    ++ signed_decimal event.acceleration_z
    ++ codes "},\"gyroscope_raw\":{\"x\":"
    ++ signed_decimal event.gyroscope_x
    ++ codes ",\"y\":"
    ++ signed_decimal event.gyroscope_y
    ++ codes ",\"z\":"
    ++ signed_decimal event.gyroscope_z
    ++ codes "}}}"

-- build_barometer_event
unfoldable pub barometer_text : ComponentEvent → Bytes
barometer_text event =
    codes ",\"data\":{\"pressure_centi_pa\":"
    ++ signed_decimal event.pressure_centi_pa
    ++ codes ",\"temperature_centi_c\":"
    ++ signed_decimal event.temperature_centi_c
    ++ codes "}}"

-- The first loop of format_uint64: the digits of the value, the last one first. The array has
-- room for 20 of them.
unfoldable pub reversed_digits : ℕ → ℕ → Bytes
reversed_digits zero value = []
reversed_digits (suc fuel) value =
    let rest = reversed_digits fuel (value / 10) in
    if value / 10 == 0 then (b'0' + value % 10) ∷ [] else (b'0' + value % 10) ∷ rest

-- The second loop: place `index` takes the digit counted from the end, `left` places are to come.
unfoldable pub copy_reversed : Bytes → ℕ → ℕ → Bytes
copy_reversed reversed zero index = []
copy_reversed reversed (suc left) index =
    get_or reversed (length reversed - index - 1) 0 ∷ copy_reversed reversed left (index + 1)

-- UINT64_DECIMAL_CAPACITY - 1
abbrev pub uint64_digits : ℕ
uint64_digits = 20

-- format_uint64
unfoldable pub format_uint64 : ℕ → Bytes
unfolding reversed_digits copy_reversed
format_uint64 value =
    let reversed = reversed_digits uint64_digits value in copy_reversed reversed (length reversed) 0

-- build_sd_card_event
unfoldable pub sd_card_text : ComponentEvent → Bytes
unfolding format_uint64
sd_card_text event =
    codes ",\"data\":{\"card_type\":\""
    ++ (if event.high_capacity then codes "SDHC/SDXC" else codes "SDSC")
    ++ codes "\",\"sector_count\":"
    ++ format_uint64 event.sector_count
    ++ codes ",\"test_sector\":"
    ++ decimal event.test_sector
    ++ codes ",\"checksum\":"
    ++ decimal event.checksum
    ++ codes "}}"

-- build_failure_event
unfoldable pub failure_text : Bytes → Bytes → ComponentEvent → Bytes
failure_text stage reason event =
    codes ",\"data\":{\"stage\":\""
    ++ stage
    ++ codes "\",\"reason\":\""
    ++ reason
    ++ codes "\",\"code\":"
    ++ signed_decimal event.failure_code
    ++ codes "}}"

-- What follows the head of an event, by its kind; `none` where a text of a failure is NULL.
unfoldable pub event_data : EventKind → ComponentEvent → Option Bytes
unfolding imu_text barometer_text sd_card_text failure_text
event_data imu_sample event = some (imu_text event)
event_data barometer_sample event = some (barometer_text event)
event_data sd_card_info event = some (sd_card_text event)
event_data failure event = elim event.failure_stage [
  | none ↦ none
  | some stage ↦ elim event.failure_reason [
    | none ↦ none
    | some reason ↦ some (failure_text stage reason event)
  ]
]
event_data message event = some (codes "}")

-- json_protocol_build_test_event; `none` is a NULL pointer
unfoldable pub json_protocol_build_test_event :
    ℕ → Option Bytes → Option ComponentEvent → ℕ → Option Bytes
unfolding event_data formatted
json_protocol_build_test_event command_id none event capacity = none
json_protocol_build_test_event command_id (some test_type) none capacity = none
json_protocol_build_test_event command_id (some test_type) (some event) capacity = elim event.name [
  | none ↦ none
  | some name ↦ event_data event.kind event >>= λ rest.
      formatted capacity (event_head command_id test_type name ++ rest)
]
