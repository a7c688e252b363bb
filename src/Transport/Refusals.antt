-- ===== src/Transport/Refusals.antt =====
-- usb_cdc_transport_queue_line: the lines that it takes, and those that it refuses.
use flight_computer_test.Base.{
  Bool, ◌+◌, ◌%◌, ◌^◌, ◌≤◌, ◌<◌, ◌≡◌, ◌≢◌, ◌⊎◌, inl, inr, refl, true, false, [], ◌∷◌, ◌++◌, Bytes,
  Bool-cases, length, memchr, All, arith,
}
use flight_computer_test.Transport.{TransmitLines, refuses_line, queue_line}
use flight_computer_test.Transport.Slots.{length-slot_lines}
use flight_computer_test.Transport.Outgoing.{IsValid, queued, terminated, queued-queue_line}

-- A text that can go out as one line.
abbrev pub IsOneLine : Bytes → Type 0
IsOneLine line = (length line ≤ 4096) × All (λ b. (b ≢ b'\n') × (b ≢ b'\r')) line

-- What a line does to a queue of lines, by whether it can go out as one line and there is room for it.
abbrev pub Queues : Bytes → TransmitLines → Bool × TransmitLines → Type 0
Queues line t (taken, t') =
    (IsOneLine line
      × (length (queued t) < 2)
      × (taken ≡ true)
      × (queued t' ≡ queued t ++ terminated line ∷ [])
      × (t'.dropped ≡ t.dropped))
    ⊎ ((¬ (IsOneLine line × (length (queued t) < 2)))
        × (taken ≡ false)
        × (queued t' ≡ queued t)
        × (t'.dropped ≡ (t.dropped + 1) % 2 ^ 32))

one_line :
    (line : Bytes)
    → memchr line b'\n' ≡ false
    → memchr line b'\r' ≡ false
    → All (λ b. (b ≢ b'\n') × (b ≢ b'\r')) line
unfolding memchr
one_line [] n r = tt
one_line (b ∷ line) n r =
    ((ground (arith, n), ground (arith, r)), one_line line (ground (arith, n)) (ground (arith, r)))

no_break :
    (line : Bytes)
    → All (λ b. (b ≢ b'\n') × (b ≢ b'\r')) line
    → (memchr line b'\n' ≡ false) × (memchr line b'\r' ≡ false)
unfolding memchr
no_break [] all = (refl, refl)
no_break (b ∷ line) (here, later) =
    let (n, r) = no_break line later in (ground (arith, n, here.0), ground (arith, r, here.1))

-- In a well-formed queue: a line of at most 4,096 bytes without newline or carriage return is taken if
-- fewer than two lines are queued, and stands behind them with its newline. Any other line is refused
-- and counted, modulo 2 ^ 32, and the queued lines stay.
pub queue_line-Queues :
    {t : TransmitLines} (line : Bytes) → IsValid t → Queues line t (queue_line line t)
unfolding queue_line refuses_line
queue_line-Queues {t} line v = elim (Bool-cases (refuses_line t line)) [
  | inl refused ↦ inr (
    λ (one, room).
        let (n, r) = no_break line one.1 in ground (arith, refused, n, r, one.0, room, counted),
    ground (arith, refused),
    ground (arith, refused, queued-queue_line line v),
    ground (arith, refused),
  )
  | inr taken ↦ inl (
    (ground (arith, taken), one_line line (ground (arith, taken)) (ground (arith, taken))),
    ground (arith, taken, counted, v.count_in),
    ground (arith, taken),
    ground (arith, taken, queued-queue_line line v),
    ground (arith, taken),
  )
]
  where
    counted : length (queued t) ≡ t.count
    counted = length-slot_lines t.slots t.tail t.count
