-- ===== src/Transport/Outgoing.antt =====
-- The lines to transmit: a queue of at most two, and what goes out on the wire.
use native.Mathlib.Numerals.{add-one}
use flight_computer_test.Base.{
  ℕ, ◌+◌, ◌%◌, ◌^◌, ◌≤◌, ◌<◌, ◌≡◌, ◌⊎◌, ap, ◌∙◌, false, List, [], ◌∷◌, ◌++◌, Bytes, length,
  length-set, length-memcpy, get_or, set, take-set, take-append, memcpy, All, All-set, All-get_or,
  if◌then◌else◌, arith,
}
use flight_computer_test.Framer.{max_line_length}
use flight_computer_test.Transport.{
  LineSlot, blank_slot, TransmitLines, transmit_queue_depth, refuses_line, queue_line,
  finish_completed_transmission, start_pending_transmission, UsbAnswers,
}
use flight_computer_test.Transport.Slots.{slot_line, slot_lines, Fits, slot_lines_push}

-- USB_CDC_TERMINATED_LINE_CAPACITY
abbrev pub terminated_line_capacity : ℕ
terminated_line_capacity = max_line_length + 1

pub record IsValid (transmit : TransmitLines) : Type 0 where
  pub places : length transmit.slots ≡ transmit_queue_depth
  pub arrays : All (Fits terminated_line_capacity) transmit.slots
  pub tail_in : transmit.tail < transmit_queue_depth
  pub count_in : transmit.count ≤ transmit_queue_depth
  pub head_is : transmit.head ≡ (transmit.tail + transmit.count) % transmit_queue_depth
  pub counted : transmit.dropped < 2 ^ 32
  pub busy : (transmit.active ≡ false) ⊎ (0 < transmit.count)

-- The queued lines, each with its newline, oldest first.
abbrev pub queued : TransmitLines → List Bytes
queued transmit = slot_lines transmit.slots transmit.tail transmit.count

abbrev pub terminated : Bytes → Bytes
terminated line = line ++ b'\n' ∷ []

abbrev old_bytes : TransmitLines → Bytes
old_bytes transmit = (get_or transmit.slots transmit.head blank_slot).bytes

abbrev new_slot : TransmitLines → Bytes → LineSlot
new_slot transmit line = record {
  bytes = set (memcpy (old_bytes transmit) line) (length line) b'\n';
  length = length line + 1;
}

length-copied :
    {transmit : TransmitLines} (line : Bytes)
    → IsValid transmit
    → length line ≤ max_line_length
    → length (memcpy (old_bytes transmit) line) ≡ terminated_line_capacity
length-copied {transmit} line v fits =
    let old =
      All-get_or (Fits terminated_line_capacity) transmit.slots transmit.head blank_slot
        (omega arith) v.arrays in
    omega (arith, length-memcpy (old_bytes transmit) line (omega arith))

new_slot-Fits :
    {transmit : TransmitLines} (line : Bytes)
    → IsValid transmit
    → length line ≤ max_line_length
    → Fits terminated_line_capacity (new_slot transmit line)
new_slot-Fits {transmit} line v fits = omega (
  arith,
  length-copied line v fits,
  length-set (memcpy (old_bytes transmit) line) (length line) b'\n',
)

slot_line-new_slot :
    {transmit : TransmitLines} (line : Bytes)
    → IsValid transmit
    → length line ≤ max_line_length
    → slot_line (new_slot transmit line) ≡ terminated line
slot_line-new_slot {transmit} line v fits = rw add-one (
    take-set (memcpy (old_bytes transmit) line) (length line) b'\n'
      (omega (arith, length-copied line v fits))
    ∙ ap terminated (take-append line _))

queued-new_slot :
    {transmit : TransmitLines} (line : Bytes)
    → IsValid transmit
    → length line ≤ max_line_length
    → transmit.count < transmit_queue_depth
    → slot_lines
        (set transmit.slots transmit.head (new_slot transmit line))
        transmit.tail
        (transmit.count + 1)
      ≡ queued transmit ++ terminated line ∷ []
queued-new_slot {transmit} line v fits room = rw (add-one transmit.count) (
    slot_lines_push transmit.slots transmit.tail transmit.count transmit.head
      (new_slot transmit line) (omega arith) v.tail_in room v.head_is
    ∙ ap (λ l. queued transmit ++ l ∷ []) (slot_line-new_slot line v fits))

-- In a well-formed queue, a line is queued behind the others with its newline, unless it is refused.
pub queued-queue_line :
    {transmit : TransmitLines} (line : Bytes)
    → IsValid transmit
    → queued (queue_line line transmit).1 ≡ (
        if (queue_line line transmit).0
        then queued transmit ++ terminated line ∷ []
        else queued transmit)
unfolding queue_line refuses_line
queued-queue_line {transmit} line v = ground (arith, queued-new_slot line v)

pub queue_line-IsValid :
    {transmit : TransmitLines} (line : Bytes)
    → IsValid transmit
    → IsValid (queue_line line transmit).1
unfolding queue_line refuses_line
queue_line-IsValid {transmit} line v = ground (
  arith,
  new_slot-Fits line v,
  All-set (Fits terminated_line_capacity) transmit.slots transmit.head (new_slot transmit line)
      v.arrays,
  length-set transmit.slots transmit.head (new_slot transmit line),
)

pub finish_completed_transmission-IsValid :
    {transmit : TransmitLines} → IsValid transmit → IsValid (finish_completed_transmission transmit)
unfolding finish_completed_transmission
finish_completed_transmission-IsValid v = ground arith

pub start_pending_transmission-IsValid :
    {transmit : TransmitLines} (usb : UsbAnswers)
    → IsValid transmit
    → IsValid (start_pending_transmission usb transmit).1
unfolding start_pending_transmission
start_pending_transmission-IsValid usb v = ground arith
