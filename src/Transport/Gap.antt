-- ===== src/Transport/Gap.antt =====
-- Where process_received_bytes discards when the receive interrupt has dropped bytes.
use flight_computer_test.Base.{
  ◌-◌, ◌≡◌, ◌≤◌, sym, ap, ◌∙◌, true, false, some, [], ◌∷◌, ◌++◌, append_assoc, Bytes, length, take,
  take_all, arith,
}
use flight_computer_test.Framer.{consume, NewlineFramer}
use flight_computer_test.Framer.Bounds
use flight_computer_test.Framer.Split.{
  consume-append, discard_resumes, NoNewline, deliver, split_from,
}
use flight_computer_test.Transport.{
  RawReceive, Receiving, ReceivedLines, raw_receive_capacity, cdc_receive, completed_line,
  discard_if, receive_loop,
}
use flight_computer_test.Transport.Raw.{
  IsValid, waiting, contents, raw_room, cdc_receive-IsValid, cdc_receive-Accepts,
}
use flight_computer_test.Transport.Drain.{receive_loop-Drains}

-- The loop, an interrupt that queues a packet, and the loop once more.
pub record TwoRounds (r : Receiving) (packet : Bytes) (last : Receiving) : Type 0 where
  pub middle : Receiving
  pub first : receive_loop raw_receive_capacity r ≡ some middle
  pub second :
      receive_loop raw_receive_capacity (record middle { raw = cdc_receive middle.raw packet })
      ≡ some last

contents-empty : (raw : RawReceive) → waiting raw ≡ 0 → contents raw ≡ []
contents-empty raw h = rw h

-- A packet that fits into an empty ring is what then waits, and no overflow is pending.
receive_into_empty :
    (raw : RawReceive) (packet : Bytes)
    → IsValid raw
    → waiting raw ≡ 0
    → raw.overflow_pending ≡ false
    → length packet ≤ raw_room
    → (contents (cdc_receive raw packet) ≡ packet)
      × ((cdc_receive raw packet).overflow_pending ≡ false)
receive_into_empty raw packet v empty quiet fits =
    let a = cdc_receive-Accepts raw packet v in
    (
      a.kept
          ∙ ap (λ l. l ++ take (raw_room - waiting raw) packet) (contents-empty raw empty)
          ∙ take_all (raw_room - waiting raw) packet (omega arith),
      ground (arith, a.noticed),
    )

-- Two rounds of the loop read the bytes that waited and the packet as one run of bytes.
pub two_rounds :
    (r : Receiving) (packet : Bytes)
    → IsValid r.raw
    → length packet ≤ raw_room
    → (last : Receiving) × TwoRounds r packet last
      × ((last.framer, last.received)
          ≡ consume completed_line
              (discard_if r.raw.overflow_pending r.framer)
              r.received
              (contents r.raw ++ packet))
two_rounds r packet v fits =
    let (middle, runs, d) = receive_loop-Drains raw_receive_capacity r v (omega arith) in
    let (waits, quiet) = receive_into_empty middle.raw packet d.valid d.empty d.seen fits in
    let (last, runs', d') =
      receive_loop-Drains raw_receive_capacity
        (record middle { raw = cdc_receive middle.raw packet })
        (cdc_receive-IsValid middle.raw packet d.valid) (omega arith) in
    (
      last,
      record { middle = middle; first = runs; second = runs' },
      d'.read
          ∙ rw (quiet, waits)
              (ap (λ (p : NewlineFramer × ReceivedLines). consume completed_line p.0 p.1 packet)
                d.read)
          ∙ sym (consume-append completed_line (contents r.raw) packet _ r.received),
    )

-- When bytes have been dropped behind `kept`, the loop skips the line that was buffered first, not
-- the line with the gap: what is then delivered is cut from `kept` joined to the packet that comes
-- after the dropped bytes.
pub overflow_joins :
    (r : Receiving) (junk kept packet : Bytes)
    → IsValid r.raw
    → Bounds.IsValid r.framer
    → r.raw.overflow_pending ≡ true
    → contents r.raw ≡ junk ++ b'\n' ∷ kept
    → NoNewline junk
    → length packet ≤ raw_room
    → (last : Receiving) × TwoRounds r packet last
      × (last.received ≡ deliver completed_line r.received (split_from [] (kept ++ packet)))
overflow_joins r junk kept packet v fv pending waits clean fits =
    let (last, rounds, read) = two_rounds r packet v fits in
    (
      last,
      rounds,
      ap (λ (p : NewlineFramer × ReceivedLines). p.1) read
          ∙ rw (pending, waits, append_assoc)
              (discard_resumes completed_line r.framer r.received junk (kept ++ packet) fv clean),
    )
