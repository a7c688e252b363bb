-- ===== src/LineQueues.antt =====
-- firmware/manufacturing_test/protocol/usb_cdc_transport.c: the queue of received lines and the queue
-- of lines to transmit, with the functions that work on them alone.
use flight_computer_test.Base.{
  ℕ, ◌+◌, ◌-◌, ◌%◌, ◌^◌, Bool, true, false, not, ◌||◌, Option, none, some, List, [], Bytes, length,
  get_or, set, take, memcpy, memchr, ltb, leb, ◌==◌, if◌then◌else◌,
}
use flight_computer_test.Framer.{max_line_length}

-- USB_CDC_LINE_QUEUE_DEPTH and USB_CDC_TRANSMIT_QUEUE_DEPTH
abbrev pub line_queue_depth : ℕ
line_queue_depth = 2

abbrev pub transmit_queue_depth : ℕ
transmit_queue_depth = 2

-- received_line_t and transmit_line_t: an array and how much of it is used
pub record LineSlot : Type 0 where
  pub bytes : Bytes
  pub length : ℕ

abbrev pub blank_slot : LineSlot
blank_slot = record { bytes = []; length = 0 }

-- received_lines with its indices, and completed_lines_dropped
pub record ReceivedLines : Type 0 where
  pub slots : List LineSlot
  pub head : ℕ
  pub tail : ℕ
  pub count : ℕ
  pub dropped : ℕ

-- transmit_lines with its indices and flags, and transmitted_lines_dropped
pub record TransmitLines : Type 0 where
  pub slots : List LineSlot
  pub head : ℕ
  pub tail : ℕ
  pub count : ℕ
  pub active : Bool
  pub completed : Bool
  pub dropped : ℕ

-- completed_line, the framer's callback
unfoldable pub completed_line : Bytes → ReceivedLines → ReceivedLines
completed_line line received =
    if received.count == line_queue_depth
    then record received { dropped = (received.dropped + 1) % 2 ^ 32 }
    else record received {
      slots = set received.slots received.head (record {
        bytes = memcpy (get_or received.slots received.head blank_slot).bytes line;
        length = length line;
      });
      head = (received.head + 1) % line_queue_depth;
      count = received.count + 1;
    }

-- usb_cdc_line_result_t, with what an available line stores through the pointers
pub data LineResult : Type 0 where
  unavailable : LineResult
  available : Bytes → LineResult
  buffer_too_small : LineResult

-- usb_cdc_transport_read_line into a buffer of `capacity` bytes
unfoldable pub read_line : ℕ → ReceivedLines → LineResult × ReceivedLines
read_line capacity received =
    let line = get_or received.slots received.tail blank_slot in
    if received.count == 0
    then (unavailable, received)
    else if leb capacity line.length
    then (buffer_too_small, received)
    else (
      available (take line.length line.bytes),
      record received { tail = (received.tail + 1) % line_queue_depth; count = received.count - 1 },
    )

-- The refusals of usb_cdc_transport_queue_line; its callers pass no null pointer.
unfoldable pub refuses_line : TransmitLines → Bytes → Bool
refuses_line transmit line =
    ltb max_line_length (length line)
    || transmit.count == transmit_queue_depth
    || memchr line b'\n'
    || memchr line b'\r'

-- usb_cdc_transport_queue_line
unfoldable pub queue_line : Bytes → TransmitLines → Bool × TransmitLines
queue_line line transmit =
    if refuses_line transmit line
    then (false, record transmit { dropped = (transmit.dropped + 1) % 2 ^ 32 })
    else (
      true,
      record transmit {
        slots = set transmit.slots transmit.head (record {
          bytes =
              set (memcpy (get_or transmit.slots transmit.head blank_slot).bytes line) (length line)
                b'\n';
          length = length line + 1;
        });
        head = (transmit.head + 1) % transmit_queue_depth;
        count = transmit.count + 1;
      },
    )

-- usb_cdc_transport_can_queue_line
unfoldable pub can_queue_line : TransmitLines → Bool
can_queue_line transmit = ltb transmit.count transmit_queue_depth

-- finish_completed_transmission, between its critical section and its end
unfoldable pub finish_completed_transmission : TransmitLines → TransmitLines
finish_completed_transmission transmit =
    let cleared = record transmit { completed = false } in
    if not transmit.completed || not transmit.active then cleared else record cleared {
      active = false;
      tail = (transmit.tail + 1) % transmit_queue_depth;
      count = transmit.count - 1;
    }

-- What the USB library answers: is the device configured, is the buffer taken, is the packet sent.
pub record UsbAnswers : Type 0 where
  pub configured : Bool
  pub buffer_set : Bool
  pub packet_sent : Bool

-- start_pending_transmission: the bytes handed to the library, if it took them
unfoldable pub start_pending_transmission :
    UsbAnswers → TransmitLines → Option Bytes × TransmitLines
start_pending_transmission usb transmit =
    let line = get_or transmit.slots transmit.tail blank_slot in
    if transmit.active || transmit.count == 0 || not usb.configured
    then (none, transmit)
    else if not usb.buffer_set || not usb.packet_sent
    then (none, record transmit { active = false })
    else (some (take line.length line.bytes), record transmit { active = true })

-- cdc_initialize and cdc_deinitialize, up to the buffers of the USB library
unfoldable pub cdc_reset_flags : TransmitLines → TransmitLines
cdc_reset_flags transmit = record transmit { active = false; completed = false }

-- cdc_transmit_complete
unfoldable pub cdc_transmit_complete : TransmitLines → TransmitLines
cdc_transmit_complete transmit = record transmit { completed = true }
