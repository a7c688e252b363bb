-- ===== src/Transport/Slots.antt =====
-- Two-place line queues: the arrays with their lengths as a queue of lines.
use flight_computer_test.Base.{
  ℕ, suc, ◌+◌, ◌-◌, ◌%◌, ◌≤◌, ◌<◌, ◌≡◌, ◌≢◌, ap, ◌∙◌, List, [], ◌∷◌, ◌++◌, map, map-append, Bytes,
  length, length-map, get_or, set, take,
}
use flight_computer_test.Base.Ring.{
  ring_window, length-ring_window, ring_window_pop, ring_window-set,
}
use flight_computer_test.Transport.{LineSlot, blank_slot}

-- What a slot holds.
abbrev pub slot_line : LineSlot → Bytes
slot_line slot = take slot.length slot.bytes

-- The `count` lines from index `tail` on, oldest first.
abbrev pub slot_lines : List LineSlot → ℕ → ℕ → List Bytes
slot_lines slots tail count = map slot_line (ring_window blank_slot slots 2 tail count)

-- A slot whose array has `size` bytes, and whose line lies inside it.
abbrev pub Fits : ℕ → LineSlot → Type 0
Fits size slot = (length slot.bytes ≡ size) × (slot.length ≤ size)

pub slot_lines_push :
    (slots : List LineSlot) (tail count head : ℕ) (slot : LineSlot)
    → 2 ≤ length slots
    → tail < 2
    → count < 2
    → head ≡ (tail + count) % 2
    → slot_lines (set slots head slot) tail (suc count)
      ≡ slot_lines slots tail count ++ slot_line slot ∷ []
slot_lines_push slots tail count head slot l t c e =
    ap (map slot_line) (ring_window-set blank_slot slots 2 tail count head slot l t c e)
    ∙ map-append slot_line (ring_window blank_slot slots 2 tail count) (slot ∷ [])

pub slot_lines_pop :
    (slots : List LineSlot) (tail count : ℕ)
    → count ≢ 0
    → slot_lines slots tail count
      ≡ slot_line (get_or slots tail blank_slot) ∷ slot_lines slots ((tail + 1) % 2) (count - 1)
slot_lines_pop slots tail count h =
    ap (map slot_line) (ring_window_pop blank_slot slots 2 tail count h)

pub length-slot_lines :
    (slots : List LineSlot) (tail count : ℕ) → length (slot_lines slots tail count) ≡ count
length-slot_lines slots tail count =
    length-map (ring_window blank_slot slots 2 tail count) slot_line
    ∙ length-ring_window blank_slot slots 2 tail count
