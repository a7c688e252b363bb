-- ===== src/Transport/Lines.antt =====
-- The received lines as a queue of at most two lines.
use flight_computer_test.Base.{
  ℕ, ◌+◌, ◌%◌, ◌^◌, ◌≤◌, ◌<◌, ◌≡◌, ap, ◌∙◌, List, [], ◌∷◌, ◌++◌, Bytes, length, length-set,
  length-take, length-memcpy, get_or, set, take-append, memcpy, All, All-set, All-get_or, ltb, leb,
  if◌then◌else◌, arith,
}
use native.Mathlib.Numerals.{add-one}
use flight_computer_test.Framer.{max_line_length}
use flight_computer_test.Transport.{
  LineSlot, blank_slot, ReceivedLines, line_queue_depth, completed_line, read_line, LineResult,
  unavailable, available, buffer_too_small,
}
use flight_computer_test.Transport.Slots.{
  slot_lines, Fits, slot_lines_push, slot_lines_pop, length-slot_lines,
}

pub record IsValid (received : ReceivedLines) : Type 0 where
  pub places : length received.slots ≡ line_queue_depth
  pub arrays : All (Fits max_line_length) received.slots
  pub tail_in : received.tail < line_queue_depth
  pub count_in : received.count ≤ line_queue_depth
  pub head_is : received.head ≡ (received.tail + received.count) % line_queue_depth
  pub counted : received.dropped < 2 ^ 32

abbrev pub lines : ReceivedLines → List Bytes
lines received = slot_lines received.slots received.tail received.count

-- The specification: a line that finds no place is dropped.
abbrev pub enqueue : List Bytes → Bytes → List Bytes
enqueue queue line = if ltb (length queue) line_queue_depth then queue ++ line ∷ [] else queue

abbrev new_slot : ReceivedLines → Bytes → LineSlot
new_slot received line = record {
  bytes = memcpy (get_or received.slots received.head blank_slot).bytes line;
  length = length line;
}

new_slot-Fits :
    {received : ReceivedLines} (line : Bytes)
    → IsValid received
    → length line ≤ max_line_length
    → Fits max_line_length (new_slot received line)
new_slot-Fits {received} line v fits =
    let old =
      All-get_or (Fits max_line_length) received.slots received.head blank_slot (omega arith)
        v.arrays in
    omega (
      arith,
      length-memcpy (get_or received.slots received.head blank_slot).bytes line (omega arith),
    )

lines-new_slot :
    {received : ReceivedLines} (line : Bytes)
    → IsValid received
    → received.count < line_queue_depth
    → slot_lines
        (set received.slots received.head (new_slot received line))
        received.tail
        (received.count + 1)
      ≡ lines received ++ line ∷ []
lines-new_slot {received} line v room = rw add-one (
    slot_lines_push received.slots received.tail received.count received.head
      (new_slot received line) (omega arith) v.tail_in room v.head_is
    ∙ ap (λ l. lines received ++ l ∷ []) (take-append line _))

-- In a well-formed queue, a completed line is put behind the waiting ones, or dropped if two wait.
pub completed_line-enqueue :
    {received : ReceivedLines} (line : Bytes)
    → IsValid received
    → lines (completed_line line received) ≡ enqueue (lines received) line
unfolding completed_line
completed_line-enqueue {received} line v =
    ground
      (arith, lines-new_slot line v, length-slot_lines received.slots received.tail received.count)

pub completed_line-IsValid :
    {received : ReceivedLines} (line : Bytes)
    → IsValid received
    → length line ≤ max_line_length
    → IsValid (completed_line line received)
unfolding completed_line
completed_line-IsValid {received} line v fits = ground (
  arith,
  new_slot-Fits line v fits,
  All-set (Fits max_line_length) received.slots received.head (new_slot received line) v.arrays,
  length-set received.slots received.head (new_slot received line),
)

-- The specification of a read: what it answers, and the queue behind it.
abbrev pub dequeue : ℕ → List Bytes → LineResult × List Bytes
dequeue capacity [] = (unavailable, [])
dequeue capacity (line ∷ queue) =
    if leb capacity (length line) then (buffer_too_small, line ∷ queue) else (available line, queue)

-- From a well-formed queue usb_cdc_transport_read_line hands out the oldest line, keeps it if the buffer cannot take it and
-- its terminator, and says so if there is none.
pub read_line-dequeue :
    {received : ReceivedLines} (capacity : ℕ)
    → IsValid received
    → ((read_line capacity received).0, lines (read_line capacity received).1)
      ≡ dequeue capacity (lines received)
unfolding read_line
read_line-dequeue {received} capacity v = ground (
  arith,
  slot_lines_pop received.slots received.tail received.count,
  length-take (get_or received.slots received.tail blank_slot).length
      (get_or received.slots received.tail blank_slot).bytes,
  All-get_or (Fits max_line_length) received.slots received.tail blank_slot (omega arith) v.arrays,
)

pub read_line-IsValid :
    {received : ReceivedLines} (capacity : ℕ)
    → IsValid received
    → IsValid (read_line capacity received).1
unfolding read_line
read_line-IsValid {received} capacity v = ground arith
