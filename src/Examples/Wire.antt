-- ===== src/Examples/Wire.antt =====
-- The transport's theorems on buffers of the declared sizes.
use flight_computer_test.Base.{
  ℕ, ◌+◌, ◌≡◌, inl, refl, ap, true, false, Option, some, List, [], ◌∷◌, ◌++◌, Bytes, length,
  length-replicate, replicate, ◌-◌, arith,
}
use flight_computer_test.Base.Text.{codes}
use flight_computer_test.Framer.{NewlineFramer, initialize, discard_current_line, consume}
use flight_computer_test.Framer.Bounds as Bounds
use flight_computer_test.Framer.Split.{split_from, deliver, consume_lines, discard_resumes}
use flight_computer_test.Transport.{
  RawReceive, LineSlot, ReceivedLines, TransmitLines, Transport, Receiving, UsbAnswers, process,
  cdc_receive, cdc_transmit_complete, receive_loop, completed_line, read_line, queue_line,
}
use flight_computer_test.Transport.Raw as Raw
use flight_computer_test.Transport.Raw.{cdc_receive-Accepts, Accepts, contents}
use flight_computer_test.Transport.Slots.{Fits}
use flight_computer_test.Transport.Lines as Lines
use flight_computer_test.Transport.Lines.{
  lines, enqueue, dequeue, completed_line-enqueue, read_line-dequeue,
}
use flight_computer_test.Transport.Drain.{Drains, receive_loop-Drains}
use flight_computer_test.Transport.Outgoing as Outgoing
use flight_computer_test.Transport.Outgoing.{queued, terminated}
use flight_computer_test.Transport.Refusals.{Queues, queue_line-Queues}
use flight_computer_test.Transport.Wire.{
  Event, queue, poll, complete, happen_all, unsent, happen_all-unsent,
}
use flight_computer_test.Transport.Gap.{TwoRounds, overflow_joins}
use flight_computer_test.Transport.Safety.{
  IsValid, here, next, receive_interrupt, transmit_interrupt, Reach-IsValid, process-IsValid,
}

-- A callback that keeps the lines, the latest first.
abbrev keep : Bytes → List Bytes → List Bytes
keep line kept = line ∷ kept

abbrev zeros : ℕ → Bytes
zeros n = replicate n 0

length-zeros : (n : ℕ) → length (zeros n) ≡ n
length-zeros n = length-replicate n 0

abbrev pub blank_framer : NewlineFramer
blank_framer = record { line = zeros 4096; length = 0; overflow_count = 0; discarding = false }

-- Two lines, the first with a carriage return, and the start of a third.
abbrev stream : Bytes
stream = codes "ab" ++ b'\r' ∷ b'\n' ∷ codes "c" ++ b'\n' ∷ codes "d"

consume_lines_example :
    ((consume keep (initialize blank_framer) [] stream).1 ≡ codes "c" ∷ codes "ab" ∷ [])
    × ((consume keep (initialize blank_framer) [] stream).0.overflow_count ≡ 0)
consume_lines_example = consume_lines keep blank_framer [] stream (length-zeros 4096)

blank_framer-IsValid : Bounds.IsValid blank_framer
blank_framer-IsValid = record {
  array = length-zeros 4096;
  used = omega arith;
  counted = omega arith;
}

discard_resumes_example :
    (consume keep (discard_current_line blank_framer) [] (codes "x" ++ b'\n' ∷ codes "ok\n")).1
    ≡ codes "ok" ∷ []
discard_resumes_example =
    discard_resumes keep blank_framer [] (codes "x") (codes "ok\n") blank_framer-IsValid
      (ground arith, tt)

-- The ring with two lines in it.
abbrev pub ring : RawReceive
ring = record {
  buffer = codes "a\nb\n" ++ zeros 508;
  head = 4;
  tail = 0;
  overflow_pending = false;
  bytes_dropped = 0;
}

ring-IsValid : Raw.IsValid ring
ring-IsValid = record {
  array = ap (λ n. 4 + n) (length-zeros 508);
  head_in = omega arith;
  tail_in = omega arith;
  counted = omega arith;
}

cdc_receive-Accepts_example : Accepts ring (codes "cd") (cdc_receive ring (codes "cd"))
cdc_receive-Accepts_example = cdc_receive-Accepts ring (codes "cd") ring-IsValid

abbrev slot : Bytes → ℕ → LineSlot
slot text size = record { bytes = text ++ zeros (size - length text); length = length text }

abbrev no_lines : ReceivedLines
no_lines = record {
  slots = slot [] 4096 ∷ slot [] 4096 ∷ [];
  head = 0;
  tail = 0;
  count = 0;
  dropped = 0;
}

empty-Fits : (size : ℕ) → Fits size (slot [] size)
empty-Fits size = (omega (arith, length-zeros (size - 0)), omega arith)

no_lines-IsValid : Lines.IsValid no_lines
no_lines-IsValid = record {
  places = refl;
  arrays = (empty-Fits 4096, (empty-Fits 4096, tt));
  tail_in = omega arith;
  count_in = omega arith;
  head_is = refl;
  counted = omega arith;
}

abbrev receiving : Receiving
receiving = record { raw = ring; framer = blank_framer; received = no_lines }

receive_loop-Drains_example :
    (after : Receiving) × (receive_loop 512 receiving ≡ some after) × Drains receiving after
receive_loop-Drains_example = receive_loop-Drains 512 receiving ring-IsValid (omega arith)

completed_line-enqueue_example :
    lines (completed_line (codes "hi") no_lines) ≡ enqueue (lines no_lines) (codes "hi")
completed_line-enqueue_example = completed_line-enqueue (codes "hi") no_lines-IsValid

one_line-Fits : Fits 4096 (slot (codes "hi") 4096)
one_line-Fits = (ap (λ n. 2 + n) (length-zeros 4094), omega arith)

abbrev pub one_line : ReceivedLines
one_line = record {
  slots = slot (codes "hi") 4096 ∷ slot [] 4096 ∷ [];
  head = 1;
  tail = 0;
  count = 1;
  dropped = 0;
}

pub one_line-IsValid : Lines.IsValid one_line
one_line-IsValid = record {
  places = refl;
  arrays = (one_line-Fits, (empty-Fits 4096, tt));
  tail_in = omega arith;
  count_in = omega arith;
  head_is = refl;
  counted = omega arith;
}

read_line-dequeue_example :
    ((read_line 4097 one_line).0, lines (read_line 4097 one_line).1) ≡ dequeue 4097 (lines one_line)
read_line-dequeue_example = read_line-dequeue 4097 one_line-IsValid

abbrev pub nothing_queued : TransmitLines
nothing_queued = record {
  slots = slot [] 4097 ∷ slot [] 4097 ∷ [];
  head = 0;
  tail = 0;
  count = 0;
  active = false;
  completed = false;
  dropped = 0;
}

pub nothing_queued-IsValid : Outgoing.IsValid nothing_queued
nothing_queued-IsValid = record {
  places = refl;
  arrays = (empty-Fits 4097, (empty-Fits 4097, tt));
  tail_in = omega arith;
  count_in = omega arith;
  head_is = refl;
  counted = omega arith;
  busy = inl refl;
}

queue_line-Queues_example :
    Queues (codes "ok") nothing_queued (queue_line (codes "ok") nothing_queued)
queue_line-Queues_example = queue_line-Queues (codes "ok") nothing_queued-IsValid

abbrev ready : UsbAnswers
ready = record { configured = true; buffer_set = true; packet_sent = true }

abbrev history : List Event
history = queue (codes "a") ∷ poll ready ∷ queue (codes "b") ∷ complete ∷ poll ready ∷ []

happen_all-unsent_example :
    ((happen_all history nothing_queued).0 ++ unsent (happen_all history nothing_queued).2
      ≡ unsent nothing_queued ++ (happen_all history nothing_queued).1)
    × Outgoing.IsValid (happen_all history nothing_queued).2
happen_all-unsent_example = happen_all-unsent history nothing_queued nothing_queued-IsValid

-- Bytes were dropped behind the line in the ring.
abbrev after_gap : Receiving
after_gap = record receiving { raw = record ring { overflow_pending = true } }

overflow_joins_example :
    (last : Receiving) × TwoRounds after_gap (codes "z\n") last
    × (last.received ≡ deliver completed_line no_lines (split_from [] (codes "b\n" ++ codes "z\n")))
overflow_joins_example =
    overflow_joins after_gap (codes "a") (codes "b\n") (codes "z\n") (omega (arith, ring-IsValid))
      blank_framer-IsValid refl refl (ground arith, tt) (omega arith)

abbrev pub used : Transport
used = record {
  raw = ring;
  receive_framer = blank_framer;
  received = one_line;
  transmit = nothing_queued;
}

used-IsValid : IsValid used
used-IsValid = record {
  raw = ring-IsValid;
  framer = blank_framer-IsValid;
  received = one_line-IsValid;
  transmit = nothing_queued-IsValid;
}

process-IsValid_example :
    (out : Option Bytes × Transport) × (process ready used ≡ some out) × IsValid out.1
process-IsValid_example = process-IsValid ready used used-IsValid

Reach-IsValid_example : IsValid (record used {
  raw = cdc_receive ring (codes "cd");
  transmit = cdc_transmit_complete nothing_queued;
})
Reach-IsValid_example =
    Reach-IsValid (next (next here (receive_interrupt (codes "cd"))) transmit_interrupt)
      used-IsValid
