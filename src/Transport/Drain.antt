-- ===== src/Transport/Drain.antt =====
-- The loop of process_received_bytes: what it hands to the framer, and what an overflow does.
use flight_computer_test.Base.{
  ℕ, zero, suc, ◌+◌, ◌-◌, ◌%◌, ◌<◌, ◌≡◌, ◌≢◌, refl, sym, ◌∙◌, false, some, [], ◌∷◌, get_or, arith,
  ℕ_discrete,
}
use flight_computer_test.Base.Ring.{ring_window_pop}
use flight_computer_test.Framer.{consume}
use flight_computer_test.Framer.Split.{consume-append}
use flight_computer_test.Transport.{
  RawReceive, Receiving, raw_receive_capacity, pop_received_byte, completed_line, discard_if,
  accept_byte, receive_loop,
}
use flight_computer_test.Transport.Raw.{IsValid, waiting, contents}

-- The ring after a pop that found a byte.
abbrev pub popped : RawReceive → RawReceive
popped raw = record raw { overflow_pending = false; tail = (raw.tail + 1) % raw_receive_capacity }

-- What the loop leaves when the ring is empty.
abbrev pub finished : Receiving → Receiving
finished r = record r {
  raw = record r.raw { overflow_pending = false };
  framer = discard_if r.raw.overflow_pending r.framer;
}

-- The state after one round of the loop.
abbrev pub next_round : Receiving → Receiving
next_round r =
    accept_byte (popped r.raw) r.raw.overflow_pending (get_or r.raw.buffer r.raw.tail 0) r

receive_loop-done :
    (fuel : ℕ) (r : Receiving)
    → r.raw.tail ≡ r.raw.head
    → receive_loop (suc fuel) r ≡ some (finished r)
unfolding receive_loop pop_received_byte
receive_loop-done fuel r h = ground arith

receive_loop-more :
    (fuel : ℕ) (r : Receiving)
    → r.raw.tail ≢ r.raw.head
    → receive_loop (suc fuel) r ≡ receive_loop fuel (next_round r)
unfolding receive_loop pop_received_byte
receive_loop-more fuel r h = ground arith

contents-popped :
    {raw : RawReceive}
    → IsValid raw
    → raw.tail ≢ raw.head
    → contents raw ≡ get_or raw.buffer raw.tail 0 ∷ contents (popped raw)
contents-popped {raw} v h =
    let fewer : waiting raw - 1 ≡ waiting (popped raw) = omega arith in
    ring_window_pop 0 raw.buffer raw_receive_capacity raw.tail (waiting raw) (omega arith)
    ∙ rw fewer

contents-none : {raw : RawReceive} → IsValid raw → raw.tail ≡ raw.head → contents raw ≡ []
contents-none {raw} v h = let empty : waiting raw ≡ 0 = omega arith in rw empty

-- What the loop leaves: the framer has read all that waited, and the ring is empty.
pub record Drains (r : Receiving) (after : Receiving) : Type 0 where
  pub read :
      (after.framer, after.received)
      ≡ consume completed_line
          (discard_if r.raw.overflow_pending r.framer)
          r.received
          (contents r.raw)
  pub valid : IsValid after.raw
  pub empty : waiting after.raw ≡ 0
  pub seen : after.raw.overflow_pending ≡ false

-- With more fuel than bytes wait the loop ends. All bytes that waited are consumed in order by the
-- framer, which first discards its current line if an overflow was pending; the ring is then empty.
pub receive_loop-Drains :
    (fuel : ℕ) (r : Receiving)
    → IsValid r.raw
    → waiting r.raw < fuel
    → (after : Receiving) × (receive_loop fuel r ≡ some after) × Drains r after
unfolding accept_byte
receive_loop-Drains zero r v h = elim h [ ]
receive_loop-Drains (suc fuel) r v h = elim (ℕ_discrete r.raw.tail r.raw.head) [
  | yes done ↦ (
    finished r,
    receive_loop-done fuel r done,
    record {
      read = rw (contents-none v done) (unfold consume in refl);
      valid = omega arith;
      empty = omega arith;
      seen = refl;
    },
  )
  | no more ↦
      let byte = get_or r.raw.buffer r.raw.tail 0 in
      let framer = discard_if r.raw.overflow_pending r.framer in
      let (after, runs, d) = receive_loop-Drains fuel (next_round r) (omega arith) (omega arith) in
      (
        after,
        receive_loop-more fuel r more ∙ runs,
        record {
          read =
              d.read
              ∙ sym (
                  consume-append completed_line (byte ∷ []) (contents (popped r.raw)) framer
                    r.received)
              ∙ rw (contents-popped v more);
          valid = d.valid;
          empty = d.empty;
          seen = d.seen;
        },
      )
]
