-- ===== src/Transport/Raw.antt =====
-- The raw ring as a queue of bytes, and the loop that hands them to the framer.
use flight_computer_test.Base.{
  ℕ, suc, ◌+◌, ◌-◌, ◌%◌, ◌^◌, ◌<◌, ◌≡◌, ◌≢◌, ◌∙◌, true, ◌||◌, [], ◌∷◌, ◌++◌, append_assoc,
  append-nil, Bytes, length, length-set, set, take, take-nil, ltb, arith, ℕ_discrete,
}
use flight_computer_test.Base.Ring.{ring_window, ring_window-set}
use flight_computer_test.Transport.{RawReceive, raw_receive_capacity, cdc_receive_byte, cdc_receive}

pub record IsValid (raw : RawReceive) : Type 0 where
  pub array : length raw.buffer ≡ raw_receive_capacity
  pub head_in : raw.head < raw_receive_capacity
  pub tail_in : raw.tail < raw_receive_capacity
  pub counted : raw.bytes_dropped < 2 ^ 32

-- How many bytes wait, and which, oldest first. One place of the array stays free.
abbrev pub waiting : RawReceive → ℕ
waiting raw = (raw.head + raw_receive_capacity - raw.tail) % raw_receive_capacity

abbrev pub contents : RawReceive → Bytes
contents raw = ring_window 0 raw.buffer raw_receive_capacity raw.tail (waiting raw)

abbrev pub raw_room : ℕ
raw_room = raw_receive_capacity - 1

pub cdc_receive_byte-IsValid :
    {raw : RawReceive} (byte : ℕ) → IsValid raw → IsValid (cdc_receive_byte raw byte)
unfolding cdc_receive_byte
cdc_receive_byte-IsValid {raw} byte v = ground (arith, length-set raw.buffer raw.head byte)

pub cdc_receive-IsValid :
    (raw : RawReceive) (packet : Bytes) → IsValid raw → IsValid (cdc_receive raw packet)
unfolding cdc_receive
cdc_receive-IsValid raw [] v = v
cdc_receive-IsValid raw (byte ∷ packet) v =
    cdc_receive-IsValid (cdc_receive_byte raw byte) packet (cdc_receive_byte-IsValid byte v)

abbrev next_head : RawReceive → ℕ
next_head raw = (raw.head + 1) % raw_receive_capacity

abbrev queued : RawReceive → ℕ → RawReceive
queued raw byte = record raw { buffer = set raw.buffer raw.head byte; head = next_head raw }

abbrev refused : RawReceive → RawReceive
refused raw = record raw {
  bytes_dropped = (raw.bytes_dropped + 1) % 2 ^ 32;
  overflow_pending = true;
}

receive-queued :
    (raw : RawReceive) (byte : ℕ)
    → next_head raw ≢ raw.tail
    → cdc_receive_byte raw byte ≡ queued raw byte
unfolding cdc_receive_byte
receive-queued raw byte h = ground arith

receive-refused :
    (raw : RawReceive) (byte : ℕ)
    → next_head raw ≡ raw.tail
    → cdc_receive_byte raw byte ≡ refused raw
unfolding cdc_receive_byte
receive-refused raw byte h = ground arith

contents-queued :
    {raw : RawReceive} (byte : ℕ)
    → IsValid raw
    → next_head raw ≢ raw.tail
    → (contents (queued raw byte) ≡ contents raw ++ byte ∷ [])
      × (waiting (queued raw byte) ≡ waiting raw + 1)
contents-queued {raw} byte v h =
    let longer : waiting (queued raw byte) ≡ suc (waiting raw) = omega arith in
    (
      rw longer (
          ring_window-set 0 raw.buffer raw_receive_capacity raw.tail (waiting raw) raw.head byte
            (omega arith) v.tail_in (omega arith) (omega arith)),
      omega arith,
    )

-- What an interrupt with a packet leaves: the bytes that find room, and a count of the others.
pub record Accepts (raw : RawReceive) (packet : Bytes) (after : RawReceive) : Type 0 where
  pub kept : contents after ≡ contents raw ++ take (raw_room - waiting raw) packet
  pub lost :
      after.bytes_dropped
      ≡ (raw.bytes_dropped + (length packet - (raw_room - waiting raw))) % 2 ^ 32
  pub noticed :
      after.overflow_pending ≡ raw.overflow_pending || ltb (raw_room - waiting raw) (length packet)

waiting-full : {raw : RawReceive} → IsValid raw → next_head raw ≡ raw.tail → waiting raw ≡ raw_room
waiting-full v h = omega arith

waiting-room : {raw : RawReceive} → IsValid raw → next_head raw ≢ raw.tail → waiting raw < raw_room
waiting-room v h = omega arith

take-room :
    (n b : ℕ) (packet : Bytes)
    → n < raw_room
    → take (raw_room - n) (b ∷ packet) ≡ b ∷ take (raw_room - (n + 1)) packet
take-room n b packet h = let e : raw_room - n ≡ suc (raw_room - (n + 1)) = omega arith in rw e

-- The USB interrupt queues the bytes of a packet, in order, as long as there is room, drops and
-- counts the others, and raises the overflow flag exactly when it drops one.
pub cdc_receive-Accepts :
    (raw : RawReceive) (packet : Bytes) → IsValid raw → Accepts raw packet (cdc_receive raw packet)
unfolding cdc_receive
cdc_receive-Accepts raw [] v = record {
  kept = rw (take-nil, append-nil);
  lost = omega arith;
  noticed = ground arith;
}
cdc_receive-Accepts raw (byte ∷ packet) v = elim (ℕ_discrete (next_head raw) raw.tail) [
  | yes full ↦
      let none_left : raw_room - waiting raw ≡ 0 = omega (arith, waiting-full v full) in
      let rest = cdc_receive-Accepts (refused raw) packet (omega arith) in
      rw (receive-refused raw byte full) (record {
        kept = rw none_left (rw none_left at rest.kept);
        lost = omega (arith, waiting-full v full, rest.lost);
        noticed = ground (arith, rest.noticed, none_left);
      })
  | no more ↦
      let longer = contents-queued byte v more in
      let rest =
        cdc_receive-Accepts (queued raw byte) packet
          (rw (receive-queued raw byte more) at (cdc_receive_byte-IsValid byte v)) in
      rw (receive-queued raw byte more) (record {
        kept =
            rest.kept
            ∙ rw (longer.0, longer.1, append_assoc, take-room _ _ _ (waiting-room v more));
        lost = omega (arith, waiting-room v more, longer.1, rest.lost);
        noticed = ground (arith, rest.noticed, longer.1, waiting-room v more);
      })
]
