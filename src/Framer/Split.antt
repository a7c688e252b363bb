-- ===== src/Framer/Split.antt =====
-- The framer against a description of a byte stream as segments that newlines end.
use flight_computer_test.Base.{
  ℕ, zero, suc, ◌+◌, ◌-◌, ◌%◌, ◌^◌, ◌≤◌, ◌<◌, ◌≡◌, ◌≢◌, refl, true, false, ◌&&◌, List, [], ◌∷◌,
  ◌++◌, Bytes, length, get_or, take, length-append, take-set, ltb, leb, ◌==◌, if◌then◌else◌,
  ℕ_discrete, arith,
}
use flight_computer_test.Framer.{
  NewlineFramer, max_line_length, initialize, discard_current_line, consume_byte, consume,
}
use flight_computer_test.Framer.Bounds.{IsValid, initialize-IsValid, consume_byte-IsValid}

-- The segments that a newline ends, where `segment` has been read before.
abbrev pub split_from : Bytes → Bytes → List Bytes
split_from segment [] = []
split_from segment (b ∷ bs) =
    let fresh = segment ∷ split_from [] bs in
    let longer = split_from (segment ++ b ∷ []) bs in if b == b'\n' then fresh else longer

-- A segment without one carriage return at its end.
abbrev pub strip_carriage_return : Bytes → Bytes
strip_carriage_return [] = []
strip_carriage_return (b ∷ []) = if b == b'\r' then [] else b ∷ []
strip_carriage_return (b ∷ c ∷ bs) = b ∷ strip_carriage_return (c ∷ bs)

-- Each segment that fits is delivered, in order.
abbrev pub deliver {ℓ} : {S : Type ℓ} → (Bytes → S → S) → S → List Bytes → S
deliver line_callback s [] = s
deliver line_callback s (segment ∷ rest) =
    deliver line_callback
      (if leb (length segment) max_line_length
        then line_callback (strip_carriage_return segment) s
        else s)
      rest

strip-take :
    (line : Bytes) (n : ℕ)
    → n ≤ length line
    → strip_carriage_return (take n line)
      ≡ take (if ltb 0 n && get_or line (n - 1) 0 == b'\r' then n - 1 else n) line
strip-take line zero h = refl
strip-take [] (suc n) h = elim h [ ]
strip-take (x ∷ xs) (suc zero) h = ground arith
strip-take (x ∷ []) (suc (suc n)) h = absurd (omega arith)
strip-take (x ∷ y ∷ ys) (suc (suc n)) h = ground (arith, strip-take (y ∷ ys) (suc n) (omega arith))

-- 1 for a segment that does not fit.
abbrev pub oversized : Bytes → ℕ
oversized segment = if ltb max_line_length (length segment) then 1 else 0

-- How many segments do not fit, the unfinished one at the end included.
abbrev pub oversized_from : Bytes → Bytes → ℕ
oversized_from segment [] = oversized segment
oversized_from segment (b ∷ bs) =
    let fresh = oversized segment + oversized_from [] bs in
    let longer = oversized_from (segment ++ b ∷ []) bs in if b == b'\n' then fresh else longer

-- What a framer has read of the segment at hand.
data Represents (framer : NewlineFramer) (segment : Bytes) : Type 0 where
  gathers :
      framer.discarding ≡ false
      → framer.length ≡ length segment
      → length segment ≤ max_line_length
      → take framer.length framer.line ≡ segment
      → Represents framer segment
  skips :
      framer.discarding ≡ true
      → framer.length ≡ 0
      → max_line_length < length segment
      → Represents framer segment

module _ {ℓ} {S : Type ℓ} (line_callback : Bytes → S → S) where
  step-Represents :
      {framer : NewlineFramer} {segment : Bytes} (s : S) (b : ℕ)
      → b ≢ b'\n'
      → IsValid framer
      → Represents framer segment
      → Represents (consume_byte line_callback framer s b).0 (segment ++ b ∷ [])
  unfolding consume_byte
  step-Represents {framer} {segment} s b other v (gathers d l m t) =
      elim (ℕ_discrete framer.length max_line_length) [
        | yes full ↦
            skips (ground arith) (ground arith) (omega (arith, length-append segment (b ∷ [])))
        | no more ↦
            gathers (ground arith) (ground (arith, length-append segment (b ∷ [])))
              (omega (arith, length-append segment (b ∷ [])))
              (ground (arith, take-set framer.line framer.length b, v.array))
      ]
  step-Represents {framer} {segment} s b other v (skips d l m) =
      skips (ground arith) (ground arith) (omega (arith, length-append segment (b ∷ [])))

  -- Before the newline nothing is delivered, and a segment that outgrows the array is counted.
  step_inside :
      {framer : NewlineFramer} {segment : Bytes} (s : S) (b c : ℕ)
      → b ≢ b'\n'
      → Represents framer segment
      → framer.overflow_count ≡ (c + oversized segment) % 2 ^ 32
      → ((consume_byte line_callback framer s b).1 ≡ s)
        × ((consume_byte line_callback framer s b).0.overflow_count
            ≡ (c + oversized (segment ++ b ∷ [])) % 2 ^ 32)
  unfolding consume_byte
  step_inside {framer} {segment} s b c other (gathers d l m t) e =
      ground (arith, length-append segment (b ∷ []))
  step_inside {framer} {segment} s b c other (skips d l m) e =
      ground (arith, length-append segment (b ∷ []))

  -- A newline delivers the segment, if it fits, and starts an empty one.
  step_newline :
      {framer : NewlineFramer} {segment : Bytes} (s : S)
      → IsValid framer
      → Represents framer segment
      → ((consume_byte line_callback framer s b'\n').1 ≡ (
          if leb (length segment) max_line_length
          then line_callback (strip_carriage_return segment) s
          else s))
        × ((consume_byte line_callback framer s b'\n').0.overflow_count ≡ framer.overflow_count)
        × Represents (consume_byte line_callback framer s b'\n').0 []
  unfolding consume_byte
  step_newline {framer} {segment} s v (gathers d l m t) = (
    ground (arith, strip-take framer.line framer.length (omega arith)),
    ground arith,
    gathers (ground arith) (ground arith) (omega arith) (rw d),
  )
  step_newline {framer} s v (skips d l m) =
      (ground arith, ground arith, gathers (ground arith) (ground arith) (omega arith) (rw (d, l)))

  consume-Represents :
      (bs : Bytes) (framer : NewlineFramer) (segment : Bytes) (s : S) (c : ℕ)
      → IsValid framer
      → Represents framer segment
      → framer.overflow_count ≡ (c + oversized segment) % 2 ^ 32
      → ((consume line_callback framer s bs).1 ≡ deliver line_callback s (split_from segment bs))
        × ((consume line_callback framer s bs).0.overflow_count
            ≡ (c + oversized_from segment bs) % 2 ^ 32)
  unfolding consume
  consume-Represents [] framer segment s c v r e = (refl, e)
  consume-Represents (b ∷ bs) framer segment s c v r e = elim (ℕ_discrete b b'\n') [
    | yes newline ↦
        let (delivered, kept, r') = step_newline s v r in
        let later =
          consume-Represents bs (consume_byte line_callback framer s b'\n').0 []
            (consume_byte line_callback framer s b'\n').1 (c + oversized segment)
            (consume_byte-IsValid line_callback s b'\n' v) r' (rw kept (omega arith)) in
        ground (arith, later)
    | no other ↦
        let (same, counted) = step_inside s b c other r e in
        let later =
          consume-Represents bs (consume_byte line_callback framer s b).0 (segment ++ b ∷ [])
            (consume_byte line_callback framer s b).1 c (consume_byte-IsValid line_callback s b v)
            (step-Represents s b other v r) counted in
        ground (arith, later)
  ]

  -- Bytes given to a framer that has just been initialised reach the callback as the segments that
  -- newlines end, in order, each without one carriage return at its end, and those longer than the
  -- array left out; the counter is the number of segments that are longer than the array, the
  -- unfinished last one included, modulo 2 ^ 32.
  pub consume_lines :
      (framer : NewlineFramer) (s : S) (bytes : Bytes)
      → length framer.line ≡ max_line_length
      → ((consume line_callback (initialize framer) s bytes).1
          ≡ deliver line_callback s (split_from [] bytes))
        × ((consume line_callback (initialize framer) s bytes).0.overflow_count
            ≡ oversized_from [] bytes % 2 ^ 32)
  unfolding initialize
  consume_lines framer s bytes h =
      let start : Represents (initialize framer) [] = gathers refl refl (omega arith) refl in
      let (lines, count) =
        consume-Represents bytes (initialize framer) [] s 0 (initialize-IsValid framer h) start
          refl in
      (lines, omega (arith, count))

  -- How the bytes are cut into calls makes no difference.
  pub consume-append :
      (xs ys : Bytes) (framer : NewlineFramer) (s : S)
      → consume line_callback framer s (xs ++ ys) ≡ (
          let (framer', s') = consume line_callback framer s xs in
          consume line_callback framer' s' ys)
  unfolding consume
  consume-append [] ys framer s = refl
  consume-append (x ∷ xs) ys framer s =
      consume-append xs ys (consume_byte line_callback framer s x).0
        (consume_byte line_callback framer s x).1

-- No byte of the list is a newline.
abbrev pub NoNewline : Bytes → Type 0
NoNewline [] = Unit
NoNewline (b ∷ bs) = (b ≢ b'\n') × NoNewline bs

module _ {ℓ} {S : Type ℓ} (line_callback : Bytes → S → S) where
  skip_rest :
      (junk bytes : Bytes) (framer : NewlineFramer) (s : S)
      → NoNewline junk
      → framer.discarding ≡ true
      → consume line_callback framer s (junk ++ b'\n' ∷ bytes)
        ≡ consume line_callback (record framer { discarding = false }) s bytes
  unfolding consume consume_byte
  skip_rest [] bytes framer s h d = rw d
  skip_rest (x ∷ junk) bytes framer s h d = ground (arith, skip_rest junk bytes framer s h.1 d)

  -- After discard_current_line of a well-formed framer nothing is delivered up to the next newline; behind it the framer
  -- delivers the segments of what follows, as one that has just been initialised does.
  pub discard_resumes :
      (framer : NewlineFramer) (s : S) (junk bytes : Bytes)
      → IsValid framer
      → NoNewline junk
      → (consume line_callback (discard_current_line framer) s (junk ++ b'\n' ∷ bytes)).1
        ≡ deliver line_callback s (split_from [] bytes)
  unfolding discard_current_line
  discard_resumes framer s junk bytes v h =
      rw (skip_rest junk bytes (discard_current_line framer) s h refl)
        (consume-Represents line_callback bytes _ [] s ((framer.overflow_count + 1) % 2 ^ 32)
          (omega arith) (gathers refl refl (omega arith) refl) (omega arith)).0
