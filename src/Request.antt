-- ===== src/Request.antt =====
-- firmware/manufacturing_test/protocol/json_protocol.c and json_protocol.h: requests out of JSON.
-- The tokenizer jsmn is a parameter, the tokens that it returns for a line.
pub mod Numbers
pub mod Fields
pub mod Rgb
pub mod Parse
use flight_computer_test.Base.{
  ℕ, zero, suc, ◌+◌, ◌-◌, ◌*◌, ◌^◌, Bool, true, false, not, ◌&&◌, ◌||◌, Option, none, some, List,
  [], ◌∷◌, Bytes, length, get_elem?, take, drop, memchr, bytes_equal, ltb, leb, ◌==◌, if◌then◌else◌,
}
use flight_computer_test.Base.Text.{codes, is_digit, is_lower}

-- jsmntype_t and jsmntok_t, as the tokenizer's header declares them
pub data TokenType : Type 0 where
  undefined object array string primitive : TokenType

pub record Token : Type 0 where
  pub type : TokenType
  pub start : ℕ
  pub end : ℕ

abbrev pub is_string : TokenType → Bool
is_string string = true
is_string _ = false

abbrev pub is_primitive : TokenType → Bool
is_primitive primitive = true
is_primitive _ = false

abbrev pub is_object : TokenType → Bool
is_object object = true
is_object _ = false

-- json_protocol_request_type_t
pub data RequestType : Type 0 where
  start_test run_component_test stop_component_test invalid unsupported : RequestType

-- json_protocol_request_t. The character arrays are the texts in front of their NUL.
pub record Request : Type 0 where
  pub type : RequestType
  pub command_id : ℕ
  pub test_uuid : Bytes
  pub test_type : Bytes
  pub rgb_colour_present : Bool
  pub red : ℕ
  pub green : ℕ
  pub blue : ℕ

-- JSON_PROTOCOL_VERSION, JSON_PROTOCOL_TEST_UUID_LENGTH, JSON_PROTOCOL_TEST_TYPE_CAPACITY and
-- JSON_PROTOCOL_TOKEN_CAPACITY
abbrev pub protocol_version : ℕ
protocol_version = 1

abbrev pub test_uuid_length : ℕ
test_uuid_length = 36

abbrev pub test_type_capacity : ℕ
test_type_capacity = 32

abbrev pub token_capacity : ℕ
token_capacity = 64

-- The length of a token, and the bytes of the line that it stands for.
abbrev pub token_length : Token → ℕ
token_length token = token.end - token.start

unfoldable pub token_text : Bytes → Token → Bytes
token_text line token = take (token_length token) (drop token.start line)

-- token_equals
unfoldable pub token_equals : Bytes → Token → Bytes → Bool
token_equals line token value =
    is_string token.type
    && token_length token == length value
    && bytes_equal (token_text line token) value

-- The loop of the two number readers: `none` at a byte that is no digit, or past the limit.
unfoldable pub read_digits : ℕ → ℕ → Bytes → Option ℕ
read_digits limit parsed [] = some parsed
read_digits limit parsed (character ∷ rest) =
    let parsed' = parsed * 10 + (character - b'0') in
    let later = read_digits limit parsed' rest in
    if not (is_digit character) then none else if ltb limit parsed' then none else later

-- parse_positive_uint32
unfoldable pub parse_positive_uint32 : Bytes → Token → Option ℕ
parse_positive_uint32 line token =
    if not (is_primitive token.type) || token.start == token.end
    then none
    else elim (read_digits (2 ^ 32 - 1) 0 (token_text line token)) [
      | none ↦ none
      | some parsed ↦ if parsed == 0 then none else some parsed
    ]

-- parse_uint8
unfoldable pub parse_uint8 : Bytes → Token → Option ℕ
parse_uint8 line token =
    if not (is_primitive token.type) || token.start == token.end
    then none
    else read_digits (2 ^ 8 - 1) 0 (token_text line token)

abbrev pub is_hyphen_place : ℕ → Bool
is_hyphen_place index = index == 8 || index == 13 || index == 18 || index == 23

abbrev pub is_hexadecimal : ℕ → Bool
is_hexadecimal c = is_digit c || (leb b'a' c && leb c b'f')

-- The loop of copy_test_uuid, from `index` on.
unfoldable pub uuid_characters : ℕ → Bytes → Bool
uuid_characters index [] = true
uuid_characters index (c ∷ rest) =
    let later = uuid_characters (index + 1) rest in
    if (is_hyphen_place index && not (c == b'-'))
      || (not (is_hyphen_place index) && not (is_hexadecimal c))
    then false
    else later

-- copy_test_uuid: the text that it copies
unfoldable pub copy_test_uuid : Bytes → Token → Option Bytes
copy_test_uuid line token =
    let text = token_text line token in
    if not (is_string token.type)
      || not (token_length token == test_uuid_length)
      || memchr text b'\\'
    then none
    else if not (uuid_characters 0 text)
    then none
    else elim (get_elem? line (token.start + 14)) [
      | none ↦ none
      | some c ↦ if not (c == b'4') then none else some text
    ]

abbrev pub is_type_character : ℕ → Bool
is_type_character c = is_lower c || is_digit c || c == b'_'

-- The loop of copy_test_type.
unfoldable pub type_characters : Bytes → Bool
type_characters [] = true
type_characters (c ∷ rest) = is_type_character c && type_characters rest

-- copy_test_type: the text that it copies
unfoldable pub copy_test_type : Bytes → Token → Option Bytes
copy_test_type line token =
    let text = token_text line token in
    if not (is_string token.type)
      || token_length token == 0
      || leb test_type_capacity (token_length token)
      || memchr text b'\\'
    then none
    else if type_characters text
    then some text
    else none
