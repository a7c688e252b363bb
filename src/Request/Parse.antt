-- ===== src/Request/Parse.antt =====
-- json_protocol_parse_request: the walk over the tokens of a line.
pub mod Colour
pub mod Accepted
pub mod Safe
pub mod Settled
use flight_computer_test.Base.{
  ℕ, zero, suc, ◌+◌, ◌-◌, ◌^◌, Bool, true, false, not, ◌&&◌, ◌||◌, Option, none, some, List, [],
  ◌∷◌, Bytes, length, get_elem?, bytes_equal, ltb, leb, ◌==◌, if◌then◌else◌,
}
use flight_computer_test.Base.Text.{codes}
use flight_computer_test.Request.{
  Token, TokenType, is_string, is_object, Request, RequestType, start_test, run_component_test,
  stop_component_test, invalid, unsupported, protocol_version, token_capacity, token_equals,
  parse_positive_uint32, parse_uint8, copy_test_uuid, copy_test_type,
}
pub use flight_computer_test.Request.Rgb.{
  Parsed, ok, rejected, out_of_range, out_of_fuel, ◌>>=◌, token_at, or_reject, unless_seen,
  Channels, finish_channels, no_channels,
}
unfoldable pub use flight_computer_test.Request.Rgb.{channel, channels, parse_rgb_parameters}

-- The flags of json_protocol_parse_request with the request that it writes into.
pub record Members : Type 0 where
  pub version_seen : Bool
  pub type_seen : Bool
  pub command_id_seen : Bool
  pub test_uuid_seen : Bool
  pub test_type_seen : Bool
  pub parameters_seen : Bool
  pub request : Request

-- The type that a request names.
unfoldable pub request_type : Bytes → Token → RequestType
request_type line value =
    if token_equals line value (codes "START_TEST")
    then start_test
    else if token_equals line value (codes "RUN_COMPONENT_TEST")
    then run_component_test
    else if token_equals line value (codes "STOP_COMPONENT_TEST")
    then stop_component_test
    else unsupported

-- The protocol version, if it is the one that the firmware speaks.
unfoldable pub read_version : Bytes → Token → Option ℕ
read_version line value = elim (parse_positive_uint32 line value) [
  | none ↦ none
  | some version ↦ if version == protocol_version then some version else none
]

-- What the loop does with the parameters: they move the index on.
unfoldable pub parameters_member : Bytes → List Token → ℕ → Members → Parsed (ℕ × Members)
parameters_member line tokens index m =
    let rgb = do
      (index', request) ← parse_rgb_parameters line tokens index m.request
      ok (index', record m { parameters_seen = true; request = request })
    in if m.parameters_seen then rejected else rgb

-- The branches of the loop's body, by the key; the index is the one behind the key and the value.
module _ (line : Bytes) (value : Token) (index : ℕ) (m : Members) where
  unfoldable pub version_member : Parsed (ℕ × Members)
  version_member = do
    _ ← unless_seen m.version_seen (read_version line value)
    ok (index, record m { version_seen = true })

  unfoldable pub type_member : Parsed (ℕ × Members)
  type_member =
      if m.type_seen || not (is_string value.type)
      then rejected
      else ok (
        index,
        record m {
          type_seen = true;
          request = record (m.request) { type = request_type line value };
        },
      )

  unfoldable pub command_id_member : Parsed (ℕ × Members)
  command_id_member = do
    id ← unless_seen m.command_id_seen (parse_positive_uint32 line value)
    ok (
      index,
      record m { command_id_seen = true; request = record (m.request) { command_id = id } },
    )

  unfoldable pub test_uuid_member : Parsed (ℕ × Members)
  test_uuid_member = do
    text ← unless_seen m.test_uuid_seen (copy_test_uuid line value)
    ok (
      index,
      record m { test_uuid_seen = true; request = record (m.request) { test_uuid = text } },
    )

  unfoldable pub test_type_member : Parsed (ℕ × Members)
  test_type_member = do
    text ← unless_seen m.test_type_seen (copy_test_type line value)
    ok (
      index,
      record m { test_type_seen = true; request = record (m.request) { test_type = text } },
    )

-- The body of the loop.
unfoldable pub member : Bytes → List Token → Token → Token → ℕ → Members → Parsed (ℕ × Members)
member line tokens key value index m =
    if token_equals line key (codes "protocol_version")
    then version_member line value index m
    else if token_equals line key (codes "type")
    then type_member line value index m
    else if token_equals line key (codes "command_id")
    then command_id_member line value index m
    else if token_equals line key (codes "test_uuid")
    then test_uuid_member line value index m
    else if token_equals line key (codes "test_type")
    then test_type_member line value index m
    else if token_equals line key (codes "parameters")
    then parameters_member line tokens index m
    else rejected

-- The loop of json_protocol_parse_request.
unfoldable pub members : ℕ → Bytes → List Token → ℕ → Members → Parsed Members
members zero line tokens index m = out_of_fuel
members (suc fuel) line tokens index m =
    let round = do
      key ← token_at tokens index
      value ← token_at tokens (index + 1)
      (index', m') ← member line tokens key value (index + 2) m
      members fuel line tokens index' m'
    in if ltb index (length tokens) then round else ok m

-- The shape of each type of request, at the end of json_protocol_parse_request.
unfoldable pub accepts : ℕ → Members → RequestType → Bool
accepts token_count m start_test =
    token_count == 9 && m.test_uuid_seen && not m.test_type_seen && not m.parameters_seen
accepts token_count m run_component_test =
    let is_rgb_led = bytes_equal m.request.test_type (codes "rgb_led") in
    m.test_type_seen
    && not m.test_uuid_seen
    && ((is_rgb_led && token_count == 17 && m.parameters_seen)
        || (not is_rgb_led && token_count == 9 && not m.parameters_seen))
accepts token_count m stop_component_test =
    token_count == 7 && not m.test_uuid_seen && not m.test_type_seen && not m.parameters_seen
accepts token_count m invalid = false
accepts token_count m unsupported = false

abbrev pub no_members : Members
no_members = record {
  version_seen = false;
  type_seen = false;
  command_id_seen = false;
  test_uuid_seen = false;
  test_type_seen = false;
  parameters_seen = false;
  request = record {
    type = invalid;
    command_id = 0;
    test_uuid = [];
    test_type = [];
    rgb_colour_present = false;
    red = 0;
    green = 0;
    blue = 0;
  };
}

abbrev has_request_size : ℕ → Bool
has_request_size token_count = token_count == 7 || token_count == 9 || token_count == 17

unfoldable pub finish_request : ℕ → Members → Parsed Request
finish_request token_count m =
    if not m.version_seen || not m.type_seen || not m.command_id_seen
    then rejected
    else if accepts token_count m m.request.type
    then ok m.request
    else rejected

-- The walk over the tokens of a line.
unfoldable pub parse_tokens : Bytes → List Token → Parsed Request
parse_tokens line tokens =
    let walk = do
      object ← token_at tokens 0
      m ←
          if not (is_object object.type)
          then rejected
          else members (length tokens) line tokens 1 no_members
      finish_request (length tokens) m
    in if not (has_request_size (length tokens)) then rejected else walk

-- json_protocol_parse_request. `jsmn_parse line capacity` stands for a fresh parser and
-- jsmn_parse: the tokens, or `none` for a negative count.
unfoldable pub json_protocol_parse_request :
    (Bytes → ℕ → Option (List Token)) → Bytes → Parsed Request
json_protocol_parse_request jsmn_parse line = elim (jsmn_parse line token_capacity) [
  | none ↦ rejected
  | some tokens ↦ parse_tokens line tokens
]
