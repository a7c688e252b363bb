-- ===== src/Transport/Wire.antt =====
-- What goes out on the wire: the accepted lines, in order, each once.
use flight_computer_test.Base.{
  ◌≡◌, ◌<◌, refl, sym, ap, ◌∙◌, none, some, List, [], ◌∷◌, ◌++◌, append_assoc, append-nil, Bytes,
  length, if◌then◌else◌, arith,
}
use flight_computer_test.Transport.{
  TransmitLines, queue_line, finish_completed_transmission, start_pending_transmission, UsbAnswers,
  cdc_transmit_complete,
}
use flight_computer_test.Transport.Slots.{slot_lines_pop, length-slot_lines}
use flight_computer_test.Transport.Outgoing.{
  IsValid, queued, terminated, queued-queue_line, queue_line-IsValid,
  finish_completed_transmission-IsValid, start_pending_transmission-IsValid,
}

-- What may happen to the queue while the device stays configured: the application queues a line,
-- the main loop polls, the interrupt reports the end of a transmission.
pub data Event : Type 0 where
  queue : Bytes → Event
  poll : UsbAnswers → Event
  complete : Event

-- What an event puts on the wire, and what it accepts for it.
unfoldable pub happen : Event → TransmitLines → List Bytes × List Bytes × TransmitLines
happen (queue line) t =
    let (taken, t') = queue_line line t in ([], (if taken then terminated line ∷ [] else []), t')
happen (poll usb) t =
    let (sent, t') = start_pending_transmission usb (finish_completed_transmission t) in
    (elim sent [ none ↦ [] | some line ↦ line ∷ [] ], [], t')
happen complete t = ([], [], cdc_transmit_complete t)

-- A sequence of events: all that went out, all that was accepted, and the state at the end.
unfoldable pub happen_all : List Event → TransmitLines → List Bytes × List Bytes × TransmitLines
happen_all [] t = ([], [], t)
happen_all (e ∷ es) t =
    let (sent, taken, t') = happen e t in
    let (later_sent, later_taken, last) = happen_all es t' in
    (sent ++ later_sent, taken ++ later_taken, last)

abbrev tail_of : List Bytes → List Bytes
tail_of [] = []
tail_of (l ∷ ls) = ls

-- The queued lines that have not been handed over: the one being transmitted is not among them.
abbrev pub unsent : TransmitLines → List Bytes
unsent t = if t.active then tail_of (queued t) else queued t

tail_of-append : (xs ys : List Bytes) → 0 < length xs → tail_of (xs ++ ys) ≡ tail_of xs ++ ys
tail_of-append [] ys h = elim h [ ]
tail_of-append (x ∷ xs) ys h = refl

active-queue_line : (line : Bytes) (t : TransmitLines) → (queue_line line t).1.active ≡ t.active
unfolding queue_line
active-queue_line line t = ground arith

unsent-queue_line :
    {t : TransmitLines} (line : Bytes)
    → IsValid t
    → unsent (queue_line line t).1
      ≡ unsent t ++ (if (queue_line line t).0 then terminated line ∷ [] else [])
unsent-queue_line {t} line v = ground (
  arith,
  active-queue_line line t,
  queued-queue_line line v,
  tail_of-append (queued t) (terminated line ∷ []),
  append-nil (queued t),
  append-nil (tail_of (queued t)),
  length-slot_lines t.slots t.tail t.count,
)

unsent-finish :
    {t : TransmitLines} → IsValid t → unsent (finish_completed_transmission t) ≡ unsent t
unfolding finish_completed_transmission
unsent-finish {t} v = ground (arith, slot_lines_pop t.slots t.tail t.count)

unsent-start :
    {t : TransmitLines} (usb : UsbAnswers)
    → IsValid t
    → elim (start_pending_transmission usb t).0 [ none ↦ [] | some line ↦ line ∷ [] ]
        ++ unsent (start_pending_transmission usb t).1
      ≡ unsent t
unfolding start_pending_transmission
unsent-start {t} usb v = ground (arith, slot_lines_pop t.slots t.tail t.count)

happen-unsent :
    {t : TransmitLines} (e : Event)
    → IsValid t
    → (happen e t).0 ++ unsent (happen e t).2 ≡ unsent t ++ (happen e t).1
unfolding happen
happen-unsent (queue line) v = unsent-queue_line line v
happen-unsent {t} (poll usb) v =
    unsent-start usb (finish_completed_transmission-IsValid v)
    ∙ unsent-finish v
    ∙ sym (append-nil (unsent t))
happen-unsent {t} complete v = unfold cdc_transmit_complete in sym (append-nil (unsent t))

happen-IsValid : {t : TransmitLines} (e : Event) → IsValid t → IsValid (happen e t).2
unfolding happen
happen-IsValid (queue line) v = queue_line-IsValid line v
happen-IsValid (poll usb) v =
    start_pending_transmission-IsValid usb (finish_completed_transmission-IsValid v)
happen-IsValid complete v = unfold cdc_transmit_complete in ground arith

-- Whatever the order of queued lines, polls and completion interrupts: the lines that went out are,
-- with those that wait behind them, the lines that waited before and the accepted ones, in order;
-- so each accepted line goes out once, whole and with its newline, before all later ones.
pub happen_all-unsent :
    (es : List Event) (t : TransmitLines)
    → IsValid t
    → ((happen_all es t).0 ++ unsent (happen_all es t).2 ≡ unsent t ++ (happen_all es t).1)
      × IsValid (happen_all es t).2
unfolding happen_all
happen_all-unsent [] t v = (sym (append-nil (unsent t)), v)
happen_all-unsent (e ∷ es) t v =
    let (later, valid) = happen_all-unsent es (happen e t).2 (happen-IsValid e v) in
    (
      append_assoc (happen e t).0 _ _
          ∙ ap (λ l. (happen e t).0 ++ l) later
          ∙ sym (append_assoc (happen e t).0 _ _)
          ∙ ap (λ l. l ++ (happen_all es (happen e t).2).1) (happen-unsent e v)
          ∙ append_assoc (unsent t) _ _,
      valid,
    )
