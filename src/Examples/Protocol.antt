-- ===== src/Examples/Protocol.antt =====
-- The request parser's theorems on a line and its tokens.
use flight_computer_test.Response.Clean.{Prints}
use flight_computer_test.Session.Metadata.{
  BuildTexts, session_metadata_read, read_hexadecimal, session_metadata_read-uid,
}
use flight_computer_test.Base.{
  take, drop, ℕ, ◌^◌, ◌≡◌, ◌≢◌, ◌<◌, ◌↔◌, refl, false, Option, none, some, List, [], ◌∷◌, length,
  All, Bytes, bytes_equal, arith, Bool-cases, inl, inr, subst, ◌==◌, if◌then◌else◌,
}
use flight_computer_test.Base.Text.{codes}
use flight_computer_test.Base.Decimal.{IsDigit, value_from}
use flight_computer_test.Request.{
  Token, TokenType, Request, RequestType, primitive, token_text, parse_positive_uint32,
  copy_test_uuid, token_equals, read_digits,
}
use flight_computer_test.Request.Numbers.{parse_positive_uint32_iff}
use flight_computer_test.Request.Fields.{InLine, IsUuidLike, copy_test_uuid_iff}
use flight_computer_test.Request.Parse.{
  parse_tokens, members, member, version_member, read_version, type_member, command_id_member,
  finish_request, accepts, request_type, json_protocol_parse_request,
}
use flight_computer_test.Request.Parse.Accepted.{IsAccepted, json_protocol_parse_request-IsAccepted}
use flight_computer_test.Request.Parse.Safe.{Returns}
use flight_computer_test.Request.Parse.Settled.{
  TokenizesInLine, json_protocol_parse_request-Returns,
}

abbrev token : TokenType → ℕ → ℕ → Token
token type start end = record { type = type; start = start; end = end }

parse_positive_uint32_iff_example :
    (parse_positive_uint32 (codes "42") (token primitive 0 2) ≡ some 42) ↔ (
      (primitive ≡ primitive)
      × (◌≢◌ {A = ℕ} 0 2)
      × All IsDigit (token_text (codes "42") (token primitive 0 2))
      × (42 ≡ value_from 0 (token_text (codes "42") (token primitive 0 2)))
      × (0 < 42)
      × (42 < 2 ^ 32))
parse_positive_uint32_iff_example = parse_positive_uint32_iff (codes "42") (token primitive 0 2) 42

abbrev uuid : Bytes
uuid = codes "123e4567-e89b-42d3-a456-426614174000"

copy_test_uuid_iff_example : (copy_test_uuid uuid (token TokenType.string 0 36) ≡ some uuid) ↔ (
    (TokenType.string ≡ TokenType.string)
    × (uuid ≡ token_text uuid (token TokenType.string 0 36))
    × IsUuidLike uuid)
copy_test_uuid_iff_example =
    copy_test_uuid_iff uuid (token TokenType.string 0 36) uuid (omega arith)

-- {"protocol_version":1,"type":"STOP_COMPONENT_TEST","command_id":9}
abbrev pub stop_line : Bytes
stop_line = codes "{\"protocol_version\":1,\"type\":\"STOP_COMPONENT_TEST\",\"command_id\":9}"

abbrev stop_tokens : List Token
stop_tokens =
    token TokenType.object 0 66
    ∷ token TokenType.string 2 18
    ∷ token primitive 20 21
    ∷ token TokenType.string 23 27
    ∷ token TokenType.string 30 49
    ∷ token TokenType.string 52 62
    ∷ token primitive 64 65
    ∷ []

-- A tokenizer that knows one length of line.
abbrev pub tokenize : Bytes → ℕ → Option (List Token)
tokenize line capacity = if length line == 66 then some stop_tokens else none

stop_tokens-InLine : (line : Bytes) → length line ≡ 66 → All (InLine line) stop_tokens
stop_tokens-InLine line e = ground (arith, e)

pub tokenize-in_line : TokenizesInLine tokenize
tokenize-in_line line tokens e = elim (Bool-cases (length line == 66)) [
  | inl long ↦
      let same : stop_tokens ≡ tokens = ground (arith, long, e) in
      subst (All (InLine line)) same (stop_tokens-InLine line (ground arith))
  | inr other ↦ ground arith
]

abbrev pub stop_nine : Request
stop_nine = record {
  type = RequestType.stop_component_test;
  command_id = 9;
  test_uuid = [];
  test_type = [];
  rgb_colour_present = false;
  red = 0;
  green = 0;
  blue = 0;
}

json_protocol_parse_request-IsAccepted_example : IsAccepted stop_nine
unfolding json_protocol_parse_request parse_tokens members member token_equals bytes_equal
    token_text version_member read_version parse_positive_uint32 read_digits type_member
    command_id_member finish_request accepts request_type
json_protocol_parse_request-IsAccepted_example =
    json_protocol_parse_request-IsAccepted tokenize stop_line stop_tokens stop_nine refl
      (stop_tokens-InLine stop_line refl) refl

json_protocol_parse_request-Returns_example :
    Returns IsAccepted (json_protocol_parse_request tokenize stop_line)
json_protocol_parse_request-Returns_example =
    json_protocol_parse_request-Returns tokenize stop_line tokenize-in_line

abbrev texts : BuildTexts
texts = record {
  mcu_model = codes "STM32F405";
  board_id = codes "flightcomputer";
  board_name = codes "Flight computer";
  board_revision = codes "1";
  firmware_version = codes "1.0";
  firmware_git_revision = codes "0";
}

session_metadata_read-uid_example :
    let uid = (session_metadata_read 305419896 4294967295 7 texts (λ _. codes "led") 6).uid in
    Prints 24 uid
    × (length uid ≡ 24)
    × (read_hexadecimal 0 (take 8 uid) ≡ some 305419896)
    × (read_hexadecimal 0 (take 8 (drop 8 uid)) ≡ some 4294967295)
    × (read_hexadecimal 0 (drop 16 uid) ≡ some 7)
session_metadata_read-uid_example =
    session_metadata_read-uid 305419896 4294967295 7 texts (λ _. codes "led") 6 (omega arith)
      (omega arith) (omega arith)
