-- ===== src/Response/Fits.antt =====
-- The responses fit into the session's buffer and are single lines.
use flight_computer_test.Base.{
  ℕ, zero, suc, ◌+◌, ◌*◌, ◌^◌, ◌≤◌, ◌<◌, ◌≡◌, refl, sym, subst, Bool, true, false, Option, some, [],
  ◌++◌, Bytes, memchr, ◌==◌, arith, if◌then◌else◌,
}
use flight_computer_test.Base.Text.{codes}
use flight_computer_test.Response.{
  SessionMetadata, append_format, append_capabilities, start_test_head, formatted, error_text,
  test_text, ◌>>=◌, json_protocol_build_start_test_response, json_protocol_build_error_response,
  json_protocol_build_test_response,
}
use flight_computer_test.Response.Clean.{Prints, ◌⊕◌, literal, Prints-le, Prints-decimal}

-- A builder has succeeded with a line of at most `n` bytes.
pub data Builds (n : ℕ) (built : Option Bytes) : Type 0 where
  builds : (text : Bytes) → built ≡ some text → Prints n text → Builds n built

pub Builds-le : {n m : ℕ} {built : Option Bytes} → n ≤ m → Builds n built → Builds m built
Builds-le l (builds text e p) = builds text e (Prints-le l p)

pub formatted-Builds :
    {n : ℕ} (capacity : ℕ) (text : Bytes)
    → n < capacity
    → Prints n text
    → Builds n (formatted capacity text)
unfolding formatted
formatted-Builds capacity text l p = builds text (ground (arith, p.short)) p

error_text-Prints :
    (command_id : ℕ) (error_code : Bytes)
    → command_id < 2 ^ 32
    → Prints 32 error_code
    → Prints 128 (error_text command_id error_code)
unfolding memchr
error_text-Prints command_id error_code l p = Prints-le (omega arith) (
    literal (codes "{\"protocol_version\":1,\"type\":\"ERROR\",\"command_id\":") refl refl
    ⊕ Prints-decimal command_id l
    ⊕ literal (codes ",\"error\":\"") refl refl
    ⊕ p
    ⊕ literal (codes "\"}") refl refl)

test_text-Prints :
    (response_type : Bytes) (command_id : ℕ) (test_type status : Bytes)
    → command_id < 2 ^ 32
    → Prints 32 response_type
    → Prints 32 test_type
    → Prints 32 status
    → Prints 256 (test_text response_type command_id test_type status)
unfolding memchr
test_text-Prints response_type command_id test_type status l pr pt ps = Prints-le (omega arith) (
    literal (codes "{\"protocol_version\":1,\"type\":\"") refl refl
    ⊕ pr
    ⊕ literal (codes "\",\"command_id\":") refl refl
    ⊕ Prints-decimal command_id l
    ⊕ literal (codes ",\"test_type\":\"") refl refl
    ⊕ pt
    ⊕ literal (codes "\",\"status\":\"") refl refl
    ⊕ ps
    ⊕ literal (codes "\"}") refl refl)

pub json_protocol_build_error_response-Builds :
    (command_id : ℕ) (error_code : Bytes) (capacity : ℕ)
    → command_id < 2 ^ 32
    → 128 < capacity
    → Prints 32 error_code
    → Builds 128 (json_protocol_build_error_response command_id error_code capacity)
unfolding json_protocol_build_error_response
json_protocol_build_error_response-Builds command_id error_code capacity l c p =
    formatted-Builds capacity _ c (error_text-Prints command_id error_code l p)

pub json_protocol_build_test_response-Builds :
    (response_type : Bytes) (command_id : ℕ) (test_type status : Bytes) (capacity : ℕ)
    → command_id < 2 ^ 32
    → 256 < capacity
    → Prints 32 response_type
    → Prints 32 test_type
    → Prints 32 status
    → Builds 256
        (json_protocol_build_test_response response_type command_id test_type status capacity)
unfolding json_protocol_build_test_response
json_protocol_build_test_response-Builds response_type command_id test_type status capacity l c pr
      pt ps =
    formatted-Builds capacity _ c
      (test_text-Prints response_type command_id test_type status l pr pt ps)

-- Texts of the device that a response can carry: short, on one line, and not too many of them.
pub record IsPrintable (metadata : SessionMetadata) : Type 0 where
  pub uid : Prints 64 metadata.uid
  pub mcu_model : Prints 64 metadata.mcu_model
  pub board_id : Prints 64 metadata.board_id
  pub board_name : Prints 64 metadata.board_name
  pub board_revision : Prints 64 metadata.board_revision
  pub firmware_version : Prints 64 metadata.firmware_version
  pub firmware_git_revision : Prints 64 metadata.firmware_git_revision
  pub capability_at :
      (index : ℕ) → index < metadata.capability_count → Prints 32 (metadata.capability_at index)
  pub capability_count : metadata.capability_count ≤ 64

start_test_head-Prints :
    (command_id : ℕ) (metadata : SessionMetadata)
    → command_id < 2 ^ 32
    → IsPrintable metadata
    → Prints 1024 (start_test_head command_id metadata)
unfolding memchr
start_test_head-Prints command_id metadata l v = Prints-le (omega arith) (
    literal (codes "{\"protocol_version\":1,\"type\":\"START_TEST_RESPONSE\",\"command_id\":") refl
      refl
    ⊕ Prints-decimal command_id l
    ⊕ literal (codes ",\"status\":\"ok\",\"device\":{\"uid\":\"") refl refl
    ⊕ v.uid
    ⊕ literal (codes "\",\"mcu\":\"") refl refl
    ⊕ v.mcu_model
    ⊕ literal (codes "\",\"board_id\":\"") refl refl
    ⊕ v.board_id
    ⊕ literal (codes "\",\"board_name\":\"") refl refl
    ⊕ v.board_name
    ⊕ literal (codes "\",\"board_revision\":\"") refl refl
    ⊕ v.board_revision
    ⊕ literal (codes "\"},\"firmware\":{\"version\":\"") refl refl
    ⊕ v.firmware_version
    ⊕ literal (codes "\",\"git_revision\":\"") refl refl
    ⊕ v.firmware_git_revision
    ⊕ literal (codes "\"},\"capabilities\":[") refl refl)

append_format-Builds :
    {n m : ℕ} (capacity : ℕ) (text piece : Bytes)
    → n + m < capacity
    → Prints n text
    → Prints m piece
    → Builds (n + m) (append_format capacity text piece)
unfolding append_format
append_format-Builds {n} {m} capacity text piece l pt pp =
    builds (text ++ piece) (ground (arith, pt.short, pp.short)) (pt ⊕ pp)

pub Builds-bind :
    {n m : ℕ} (built : Option Bytes) (next : Bytes → Option Bytes)
    → Builds n built
    → ((text : Bytes) → Prints n text → Builds m (next text))
    → Builds m (built >>= next)
Builds-bind {n} {m} built next (builds text e p) f =
    subst (λ b. Builds m (b >>= next)) (sym e) (f text p)

comma-Prints : (first : Bool) → Prints 1 (if first then [] else codes ",")
unfolding memchr
comma-Prints true = Prints-le (omega arith) (literal [] refl refl)
comma-Prints false = literal (codes ",") refl refl

piece-Prints :
    (index : ℕ) (capability : Bytes)
    → Prints 32 capability
    → Prints 35 ((if index == 0 then [] else codes ",") ++ codes "\"" ++ capability ++ codes "\"")
unfolding memchr
piece-Prints index capability p =
    comma-Prints (index == 0) ⊕ literal (codes "\"") refl refl ⊕ p ⊕ literal (codes "\"") refl refl

append_capabilities-Builds :
    (capacity : ℕ) (metadata : SessionMetadata) (left index n : ℕ) (text : Bytes)
    → IsPrintable metadata
    → index + left ≤ metadata.capability_count
    → n + left * 35 < capacity
    → Prints n text
    → Builds (n + left * 35) (append_capabilities capacity metadata left index text)
unfolding append_capabilities
append_capabilities-Builds capacity metadata zero index n text v i l p =
    builds text refl (Prints-le (omega arith) p)
append_capabilities-Builds capacity metadata (suc left) index n text v i l p =
    Builds-bind _ _
      (append_format-Builds capacity text _ (omega arith) p
        (piece-Prints index (metadata.capability_at index) (v.capability_at index (omega arith))))
      (λ text' p'. Builds-le (omega arith) (
        append_capabilities-Builds capacity metadata left (index + 1) (n + 35) text' v (omega arith)
          (omega arith) p'))

-- In a buffer of more than 4000 bytes, printable metadata with at most 64 capabilities and a 32-bit
-- command id make a response of at most 4000 bytes on one line.
pub json_protocol_build_start_test_response-Builds :
    (command_id : ℕ) (metadata : SessionMetadata) (capacity : ℕ)
    → command_id < 2 ^ 32
    → 4000 < capacity
    → IsPrintable metadata
    → Builds 4000 (json_protocol_build_start_test_response command_id metadata capacity)
unfolding json_protocol_build_start_test_response memchr
json_protocol_build_start_test_response-Builds command_id metadata capacity l c v =
    Builds-bind _ _
      (Builds-bind _ _
        (append_format-Builds capacity [] _ (omega arith) (literal [] refl refl)
          (start_test_head-Prints command_id metadata l v))
        (λ text p. Builds-le {m = 3990} (omega (arith, v.capability_count)) (
          append_capabilities-Builds capacity metadata metadata.capability_count 0 1024 text v
            (omega arith) (omega (arith, v.capability_count)) p)))
      (λ text p. Builds-le (omega arith) (
        append_format-Builds capacity text (codes "]}") (omega arith) p
          (literal (codes "]}") refl refl)))
