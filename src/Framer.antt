-- ===== src/Framer.antt =====
-- firmware/manufacturing_test/protocol/newline_framer.c and .h: bytes in, lines out.
pub mod Bounds
pub mod Split
use flight_computer_test.Base.{
  ℕ, ◌+◌, ◌-◌, ◌%◌, ◌^◌, Bool, true, false, ◌&&◌, List, [], ◌∷◌, Bytes, get_or, set, take, ltb,
  ◌==◌, if◌then◌else◌,
}

-- NEWLINE_FRAMER_MAX_LINE_LENGTH
abbrev pub max_line_length : ℕ
max_line_length = 4096

-- newline_framer_t. The array `line` keeps its old bytes behind `length`.
pub record NewlineFramer : Type 0 where
  pub line : Bytes
  pub length : ℕ
  pub overflow_count : ℕ
  pub discarding : Bool

-- newline_framer_initialize leaves the array as it is.
unfoldable pub initialize : NewlineFramer → NewlineFramer
initialize framer = record framer { length = 0; overflow_count = 0; discarding = false }

-- newline_framer_discard_current_line: `overflow_count` is a uint32_t.
unfoldable pub discard_current_line : NewlineFramer → NewlineFramer
discard_current_line framer = record framer {
  length = 0;
  discarding = true;
  overflow_count = (framer.overflow_count + 1) % 2 ^ 32;
}

-- The length that the callback is given: one carriage return in front of the newline is left out.
unfoldable pub delivered_length : NewlineFramer → ℕ
delivered_length framer =
    if ltb 0 framer.length && get_or framer.line (framer.length - 1) 0 == b'\r'
    then framer.length - 1
    else framer.length

-- The callback acts on a state of its own, which the loop hands on.
module _ {ℓ} {S : Type ℓ} (line_callback : Bytes → S → S) where
  -- One round of the loop of newline_framer_consume.
  unfoldable pub consume_byte : NewlineFramer → S → ℕ → NewlineFramer × S
  unfolding discard_current_line delivered_length
  consume_byte framer s byte =
      if framer.discarding
      then (if byte == b'\n' then (record framer { discarding = false }, s) else (framer, s))
      else if byte == b'\n'
      then (
        record framer { length = 0 },
        line_callback (take (delivered_length framer) framer.line) s,
      )
      else if framer.length == max_line_length
      then (discard_current_line framer, s)
      else (
        record framer { line = set framer.line framer.length byte; length = framer.length + 1 },
        s,
      )

  -- newline_framer_consume
  unfoldable pub consume : NewlineFramer → S → Bytes → NewlineFramer × S
  consume framer s [] = (framer, s)
  consume framer s (byte ∷ data_left) =
      let (framer', s') = consume_byte framer s byte in consume framer' s' data_left
