-- ===== src/Transport.antt =====
-- firmware/manufacturing_test/protocol/usb_cdc_transport.c and .h. The statics of that file are
-- grouped by what they serve: raw bytes, received lines, lines to transmit.
pub mod Raw
pub mod Drain
pub mod Slots
pub mod Lines
pub mod Outgoing
pub mod Refusals
pub mod Wire
pub mod Gap
pub mod Safety
use flight_computer_test.Base.{
  ℕ, zero, suc, ◌+◌, ◌-◌, ◌%◌, ◌^◌, Bool, true, false, not, ◌&&◌, ◌||◌, Option, none, some, List,
  [], ◌∷◌, Bytes, length, get_or, set, take, memcpy, memchr, ltb, leb, ◌==◌, if◌then◌else◌,
}
pub use flight_computer_test.LineQueues.{
  line_queue_depth, transmit_queue_depth, LineSlot, blank_slot, ReceivedLines, TransmitLines,
  LineResult, unavailable, available, buffer_too_small, UsbAnswers,
}
unfoldable pub use flight_computer_test.LineQueues.{
  completed_line, read_line, refuses_line, queue_line, can_queue_line,
  finish_completed_transmission, start_pending_transmission, cdc_reset_flags, cdc_transmit_complete,
}
use flight_computer_test.Framer.{
  NewlineFramer, max_line_length, initialize, discard_current_line, consume,
}

-- USB_CDC_RAW_RECEIVE_CAPACITY
abbrev pub raw_receive_capacity : ℕ
raw_receive_capacity = 512

-- raw_receive_buffer and its indices, shared with the receive interrupt
pub record RawReceive : Type 0 where
  pub buffer : Bytes
  pub head : ℕ
  pub tail : ℕ
  pub overflow_pending : Bool
  pub bytes_dropped : ℕ

pub record Transport : Type 0 where
  pub raw : RawReceive
  pub receive_framer : NewlineFramer
  pub received : ReceivedLines
  pub transmit : TransmitLines

-- One round of the loop of cdc_receive, which runs in the USB interrupt.
unfoldable pub cdc_receive_byte : RawReceive → ℕ → RawReceive
cdc_receive_byte raw byte =
    let next = (raw.head + 1) % raw_receive_capacity in
    if next == raw.tail
    then record raw { bytes_dropped = (raw.bytes_dropped + 1) % 2 ^ 32; overflow_pending = true }
    else record raw { buffer = set raw.buffer raw.head byte; head = next }

-- The loop of cdc_receive. Re-arming the endpoint behind it is the USB library's.
unfoldable pub cdc_receive : RawReceive → Bytes → RawReceive
cdc_receive raw [] = raw
cdc_receive raw (byte ∷ packet) = cdc_receive (cdc_receive_byte raw byte) packet

-- pop_received_byte, whose critical section makes it one step: the byte if there is one, the old
-- `receive_overflow_pending`, and the new indices.
unfoldable pub pop_received_byte : RawReceive → Option ℕ × Bool × RawReceive
pop_received_byte raw =
    if raw.tail == raw.head
    then (none, raw.overflow_pending, record raw { overflow_pending = false })
    else (
      some (get_or raw.buffer raw.tail 0),
      raw.overflow_pending,
      record raw { overflow_pending = false; tail = (raw.tail + 1) % raw_receive_capacity },
    )

-- The framer after an overflow that was noticed with a byte, or at the end.
abbrev pub discard_if : Bool → NewlineFramer → NewlineFramer
discard_if overflowed framer = if overflowed then discard_current_line framer else framer

-- What process_received_bytes works on.
pub record Receiving : Type 0 where
  pub raw : RawReceive
  pub framer : NewlineFramer
  pub received : ReceivedLines

-- One byte of the loop's body.
unfoldable pub accept_byte : RawReceive → Bool → ℕ → Receiving → Receiving
accept_byte raw overflowed byte r =
    let (framer, received) =
      consume completed_line (discard_if overflowed r.framer) r.received (byte ∷ []) in
    record { raw = raw; framer = framer; received = received }

-- process_received_bytes with no interrupt inside. The fuel bounds the rounds: `none` is a loop
-- that goes on.
unfoldable pub receive_loop : ℕ → Receiving → Option Receiving
receive_loop zero r = none
receive_loop (suc fuel) r =
    let (popped, overflowed, raw) = pop_received_byte r.raw in
    elim popped [
      | none ↦ some (record r { raw = raw; framer = discard_if overflowed r.framer })
      | some byte ↦ receive_loop fuel (accept_byte raw overflowed byte r)
    ]

-- process_received_bytes. Between two interrupts fewer bytes wait than the ring has places.
unfoldable pub process_received_bytes : Transport → Option Transport
process_received_bytes t =
    let start : Receiving = record {
      raw = t.raw;
      framer = t.receive_framer;
      received = t.received;
    } in
    elim (receive_loop raw_receive_capacity start) [
      | none ↦ none
      | some r ↦ some (record t { raw = r.raw; receive_framer = r.framer; received = r.received })
    ]

-- usb_cdc_transport_process: the bytes that go out, and the new state
unfoldable pub process : UsbAnswers → Transport → Option (Option Bytes × Transport)
process usb t = elim (process_received_bytes t) [
  | none ↦ none
  | some t' ↦
      let (sent, transmit) =
        start_pending_transmission usb (finish_completed_transmission t'.transmit) in
      some (sent, record t' { transmit = transmit })
]

-- usb_cdc_transport_statistics_t and usb_cdc_transport_statistics
pub record Statistics : Type 0 where
  pub received_bytes_dropped : ℕ
  pub completed_lines_dropped : ℕ
  pub oversized_lines_dropped : ℕ
  pub transmitted_lines_dropped : ℕ

unfoldable pub statistics : Transport → Statistics
statistics t = record {
  received_bytes_dropped = t.raw.bytes_dropped;
  completed_lines_dropped = t.received.dropped;
  oversized_lines_dropped = t.receive_framer.overflow_count;
  transmitted_lines_dropped = t.transmit.dropped;
}

-- reset_transport_state: the arrays keep what they hold.
unfoldable pub reset_transport_state : Transport → Transport
reset_transport_state t = record {
  raw = record t.raw { head = 0; tail = 0; overflow_pending = false; bytes_dropped = 0 };
  receive_framer = initialize t.receive_framer;
  received = record t.received { head = 0; tail = 0; count = 0; dropped = 0 };
  transmit = record t.transmit {
    head = 0;
    tail = 0;
    count = 0;
    active = false;
    completed = false;
    dropped = 0;
  };
}
