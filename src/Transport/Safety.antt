-- ===== src/Transport/Safety.antt =====
-- The whole transport: its invariant under the main loop and the interrupts, in any order.
use flight_computer_test.Base.{
  ℕ, ◌≡◌, ◌≢◌, ap, sym, subst, Bool, true, false, Option, some, [], ◌∷◌, Bytes, length, get_or, All,
  arith,
}
use flight_computer_test.Framer.{NewlineFramer, max_line_length, consume}
use flight_computer_test.Framer.Bounds
use flight_computer_test.Framer.Bounds.{
  consume-IsValid, consume_keeps, discard_current_line-IsValid, initialize-IsValid,
}
use flight_computer_test.Transport.{
  Transport, TransmitLines, Receiving, ReceivedLines, UsbAnswers, raw_receive_capacity,
  line_queue_depth, transmit_queue_depth, cdc_receive, completed_line, discard_if,
  process_received_bytes, process, receive_loop, accept_byte, finish_completed_transmission,
  start_pending_transmission, read_line, queue_line, cdc_transmit_complete, cdc_reset_flags,
  reset_transport_state,
}
use flight_computer_test.Transport.Raw
use flight_computer_test.Transport.Raw.{cdc_receive-IsValid}
use flight_computer_test.Transport.Drain.{receive_loop-Drains, finished, next_round}
use flight_computer_test.Transport.Lines
use flight_computer_test.Transport.Lines.{completed_line-IsValid, read_line-IsValid}
use flight_computer_test.Transport.Outgoing
use flight_computer_test.Transport.Outgoing.{
  terminated_line_capacity, queue_line-IsValid, finish_completed_transmission-IsValid,
  start_pending_transmission-IsValid,
}
use flight_computer_test.Transport.Slots.{Fits}

pub record IsValid (t : Transport) : Type 0 where
  pub raw : Raw.IsValid t.raw
  pub framer : Bounds.IsValid t.receive_framer
  pub received : Lines.IsValid t.received
  pub transmit : Outgoing.IsValid t.transmit

-- The part that the receive loop works on.
record LoopValid (r : Receiving) : Type 0 where
  raw : Raw.IsValid r.raw
  framer : Bounds.IsValid r.framer
  received : Lines.IsValid r.received

discard_if-IsValid :
    (b : Bool) (framer : NewlineFramer)
    → Bounds.IsValid framer
    → Bounds.IsValid (discard_if b framer)
discard_if-IsValid true framer v = discard_current_line-IsValid v
discard_if-IsValid false framer v = v

-- Consuming any bytes keeps the framer and the line queue well formed.
consume_parts :
    (b : Bool) (bytes : Bytes) (r : Receiving)
    → Bounds.IsValid r.framer
    → Lines.IsValid r.received
    → Bounds.IsValid (consume completed_line (discard_if b r.framer) r.received bytes).0
      × Lines.IsValid (consume completed_line (discard_if b r.framer) r.received bytes).1
consume_parts b bytes r fv lv = (
  consume-IsValid completed_line (discard_if b r.framer) r.received bytes
      (discard_if-IsValid b r.framer fv),
  consume_keeps completed_line Lines.IsValid (λ line s l v. completed_line-IsValid line v l) bytes
      (discard_if b r.framer) r.received (discard_if-IsValid b r.framer fv) lv,
)

abbrev receiving : Transport → Receiving
receiving t = record { raw = t.raw; framer = t.receive_framer; received = t.received }

abbrev with_received : Transport → Receiving → Transport
with_received t r = record t { raw = r.raw; receive_framer = r.framer; received = r.received }

process_received_bytes-runs :
    (t : Transport) {r : Receiving}
    → receive_loop raw_receive_capacity (receiving t) ≡ some r
    → process_received_bytes t ≡ some (with_received t r)
unfolding process_received_bytes
process_received_bytes-runs t h = rw (h, process_received_bytes)

process-runs :
    (usb : UsbAnswers) (t : Transport) {t' : Transport}
    → process_received_bytes t ≡ some t'
    → process usb t ≡ (
        let polled = start_pending_transmission usb (finish_completed_transmission t'.transmit) in
        some (polled.0, record t' { transmit = polled.1 }))
unfolding process
process-runs usb t h = rw (h, process)

-- The receive loop always ends, and keeps the invariant.
pub process_received_bytes-IsValid :
    (t : Transport)
    → IsValid t
    → (t' : Transport) × (process_received_bytes t ≡ some t') × IsValid t'
process_received_bytes-IsValid t v =
    let (after, runs, d) =
      receive_loop-Drains raw_receive_capacity (receiving t) v.raw (omega arith) in
    let (fv, lv) =
      consume_parts t.raw.overflow_pending (Raw.contents t.raw) (receiving t) v.framer v.received in
    (
      with_received t after,
      process_received_bytes-runs t runs,
      record {
        raw = d.valid;
        framer =
            subst Bounds.IsValid (sym (ap (λ (p : NewlineFramer × ReceivedLines). p.0) d.read)) fv;
        received =
            subst Lines.IsValid (sym (ap (λ (p : NewlineFramer × ReceivedLines). p.1) d.read)) lv;
        transmit = v.transmit;
      },
    )

-- usb_cdc_transport_process always ends and keeps the invariant, whatever the USB library answers.
pub process-IsValid :
    (usb : UsbAnswers) (t : Transport)
    → IsValid t
    → (out : Option Bytes × Transport) × (process usb t ≡ some out) × IsValid out.1
process-IsValid usb t v =
    let (t', runs, v') = process_received_bytes-IsValid t v in
    let polled = start_pending_transmission usb (finish_completed_transmission t'.transmit) in
    (
      (polled.0, record t' { transmit = polled.1 }),
      process-runs usb t runs,
      record {
        raw = v'.raw;
        framer = v'.framer;
        received = v'.received;
        transmit =
            start_pending_transmission-IsValid usb
              (finish_completed_transmission-IsValid v'.transmit);
      },
    )

-- What may happen between two critical sections: one round of the main loop's receive loop, its
-- end, a poll of the transmitter, a line read or queued, or an interrupt of the USB peripheral.
pub data Step (t : Transport) : Transport → Type 0 where
  round : t.raw.tail ≢ t.raw.head → Step t (with_received t (next_round (receiving t)))
  round_end : Step t (with_received t (finished (receiving t)))
  finish : Step t (record t { transmit = finish_completed_transmission t.transmit })
  start :
      (usb : UsbAnswers)
      → Step t (record t { transmit = (start_pending_transmission usb t.transmit).1 })
  read : (capacity : ℕ) → Step t (record t { received = (read_line capacity t.received).1 })
  queue : (line : Bytes) → Step t (record t { transmit = (queue_line line t.transmit).1 })
  receive_interrupt : (packet : Bytes) → Step t (record t { raw = cdc_receive t.raw packet })
  transmit_interrupt : Step t (record t { transmit = cdc_transmit_complete t.transmit })
  attach_interrupt : Step t (record t { transmit = cdc_reset_flags t.transmit })

pub data Reach (t : Transport) : Transport → Type 0 where
  here : Reach t t
  next : {u w : Transport} → Reach t u → Step u w → Reach t w

IsValid-transmit :
    {t : Transport} (transmit : TransmitLines)
    → IsValid t
    → Outgoing.IsValid transmit
    → IsValid (record t { transmit = transmit })
IsValid-transmit transmit v w = record {
  raw = v.raw;
  framer = v.framer;
  received = v.received;
  transmit = w;
}

Step-IsValid : {t u : Transport} → Step t u → IsValid t → IsValid u
Step-IsValid {t} (round more) v =
    let (fv, lv) =
      consume_parts t.raw.overflow_pending (get_or t.raw.buffer t.raw.tail 0 ∷ []) (receiving t)
        v.framer v.received in
    record {
      raw = unfold accept_byte in omega arith;
      framer = unfold accept_byte in fv;
      received = unfold accept_byte in lv;
      transmit = v.transmit;
    }
Step-IsValid {t} round_end v = record {
  raw = omega arith;
  framer = discard_if-IsValid t.raw.overflow_pending t.receive_framer v.framer;
  received = v.received;
  transmit = v.transmit;
}
Step-IsValid finish v = IsValid-transmit _ v (finish_completed_transmission-IsValid v.transmit)
Step-IsValid (start usb) v =
    IsValid-transmit _ v (start_pending_transmission-IsValid usb v.transmit)
Step-IsValid (read capacity) v = record {
  raw = v.raw;
  framer = v.framer;
  received = read_line-IsValid capacity v.received;
  transmit = v.transmit;
}
Step-IsValid (queue line) v = IsValid-transmit _ v (queue_line-IsValid line v.transmit)
Step-IsValid {t} (receive_interrupt packet) v = record {
  raw = cdc_receive-IsValid t.raw packet v.raw;
  framer = v.framer;
  received = v.received;
  transmit = v.transmit;
}
Step-IsValid transmit_interrupt v =
    IsValid-transmit _ v (unfold cdc_transmit_complete in ground arith)
Step-IsValid attach_interrupt v = IsValid-transmit _ v (unfold cdc_reset_flags in ground arith)

-- No order of main-loop steps and interrupts leads out of the invariant: every index stays inside
-- its array, each queue holds at most two lines, and no line is longer than its slot.
pub Reach-IsValid : {t u : Transport} → Reach t u → IsValid t → IsValid u
Reach-IsValid here v = v
Reach-IsValid (next r s) v = Step-IsValid s (Reach-IsValid r v)

-- reset_transport_state establishes the invariant on arrays of the declared sizes.
pub reset_transport_state-IsValid :
    (t : Transport)
    → length t.raw.buffer ≡ raw_receive_capacity
    → length t.receive_framer.line ≡ max_line_length
    → length t.received.slots ≡ line_queue_depth
    → All (Fits max_line_length) t.received.slots
    → length t.transmit.slots ≡ transmit_queue_depth
    → All (Fits terminated_line_capacity) t.transmit.slots
    → IsValid (reset_transport_state t)
unfolding reset_transport_state
reset_transport_state-IsValid t raw line received fits transmit fits' = record {
  raw = omega arith;
  framer = initialize-IsValid t.receive_framer line;
  received = ground arith;
  transmit = ground arith;
}
