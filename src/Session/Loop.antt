-- ===== src/Session/Loop.antt =====
-- session_protocol_process comes to an end, and loses no request.
use flight_computer_test.Base.{
  ℕ, zero, suc, ◌+◌, ◌≤◌, ◌<◌, ◌≡◌, ◌∙◌, ◌⊎◌, inl, inr, refl, sym, ap, subst, Bool-cases, true,
  false, Option, some, [], ◌∷◌, ◌++◌, Bytes, All-get_or, arith,
}
use flight_computer_test.Framer.{max_line_length}
use flight_computer_test.Transport.{
  ReceivedLines, TransmitLines, unavailable, available, blank_slot, transmit_queue_depth, read_line,
  refuses_line, queue_line, can_queue_line,
}
use flight_computer_test.Transport.Slots.{Fits}
use flight_computer_test.Transport.Lines as Lines
use flight_computer_test.Transport.Lines.{read_line-IsValid}
use flight_computer_test.Transport.Outgoing as Outgoing
use flight_computer_test.Transport.Outgoing.{
  queued, terminated, queued-queue_line, queue_line-IsValid,
}
use flight_computer_test.Registry.{Externs}
use flight_computer_test.Request.Parse.{json_protocol_parse_request}
use flight_computer_test.Request.Parse.Settled.{
  TokenizesInLine, json_protocol_parse_request-Returns,
}
use flight_computer_test.Response.{SessionMetadata}
use flight_computer_test.Response.Clean.{Prints}
use flight_computer_test.Response.Fits.{Builds, builds, IsPrintable}
use flight_computer_test.Session.{
  Session, JsmnParse, answer_request, queue_response, process_line, process_lines,
  session_protocol_line_capacity,
}
use flight_computer_test.Session.Answer.{Serves, answer_request-IsAnswer}

pub record IsValid {W : Type 0} (s : Session W) : Type 0 where
  pub received : Lines.IsValid s.received
  pub transmit : Outgoing.IsValid s.transmit
  pub runner : Serves s.runner

queue_line-Prints :
    {n : ℕ} (text : Bytes) (transmit : TransmitLines)
    → n ≤ max_line_length
    → Prints n text
    → transmit.count < transmit_queue_depth
    → ((queue_line text transmit).0 ≡ true)
      × ((queue_line text transmit).1.count ≡ transmit.count + 1)
unfolding queue_line refuses_line
queue_line-Prints text transmit l p room = ground (arith, p.short, p.no_newline, p.no_return)

-- A response was built, and its text is put behind the lines to transmit.
pub data QueuesOne (built : Option Bytes) (t t' : TransmitLines) : Type 0 where
  queues :
      (text : Bytes)
      → built ≡ some text
      → queued t' ≡ queued t ++ terminated text ∷ []
      → t'.count ≡ t.count + 1
      → Outgoing.IsValid t'
      → QueuesOne built t t'

-- A response that was built is queued if there is room.
pub queue_response-QueuesOne :
    {n : ℕ} (built : Option Bytes) (t : TransmitLines)
    → n ≤ max_line_length
    → Builds n built
    → Outgoing.IsValid t
    → t.count < transmit_queue_depth
    → QueuesOne built t (queue_response built t)
unfolding queue_response
queue_response-QueuesOne built t l (builds text e p) v room =
    let (took, counted) = queue_line-Prints text t l p room in
    subst (λ b. QueuesOne b t (queue_response b t)) (sym e)
      (queues text refl (ground (arith, queued-queue_line text v, took)) counted
        (queue_line-IsValid text v))

pub room-count : (t : TransmitLines) → can_queue_line t ≡ true → t.count < transmit_queue_depth
unfolding can_queue_line
room-count t room = ground arith

-- Reading a line takes it from the queue; the session's buffer has room for each.
read_line-session :
    (received : ReceivedLines)
    → Lines.IsValid received
    → (((read_line session_protocol_line_capacity received).0 ≡ unavailable)
        × (received.count ≡ 0)
        × ((read_line session_protocol_line_capacity received).1 ≡ received))
      ⊎ ((line : Bytes) × ((read_line session_protocol_line_capacity received).0 ≡ available line)
          × ((read_line session_protocol_line_capacity received).1.count + 1 ≡ received.count))
unfolding read_line
read_line-session received v = ground (
  arith,
  All-get_or (Fits max_line_length) received.slots received.tail blank_slot (omega arith) v.arrays,
)

module _ {W : Type 0} (jsmn_parse : JsmnParse) (metadata : SessionMetadata)
    (externs : Externs W) where
  -- On a well-formed session, with printable device texts, tokens inside the line, and room for a
  -- line to transmit, a response is built for a request line, whatever its bytes are, exactly that
  -- line is queued, and the runner stays well-formed.
  pub process_line-QueuesOne :
      (line : Bytes) (s : Session W)
      → TokenizesInLine jsmn_parse
      → IsPrintable metadata
      → IsValid s
      → can_queue_line s.transmit ≡ true
      → let parsed = json_protocol_parse_request jsmn_parse line in
        QueuesOne
          (answer_request metadata externs parsed s.runner s.world).response
          s.transmit
          (process_line jsmn_parse metadata externs line s).transmit
        × Serves (process_line jsmn_parse metadata externs line s).runner
  unfolding process_line
  process_line-QueuesOne line s inside m v room =
      let answer =
        answer_request-IsAnswer metadata externs (json_protocol_parse_request jsmn_parse line)
          s.runner s.world m (json_protocol_parse_request-Returns jsmn_parse line inside)
          v.runner in
      (
        queue_response-QueuesOne _ s.transmit (omega arith) answer.response v.transmit
            (room-count s.transmit room),
        answer.runner,
      )

  -- What the loop leaves: no request is left while there is room for its response, and there are as
  -- many responses more as there are requests fewer.
  pub record Caught (s s' : Session W) : Type 0 where
    pub valid : IsValid s'
    pub exhausted : (s'.received.count ≡ 0) ⊎ (s'.transmit.count ≡ transmit_queue_depth)
    pub balanced : s'.received.count + s'.transmit.count ≡ s.received.count + s.transmit.count

  -- The loop has come to an end that is `Caught`.
  pub data Ends (s : Session W) (result : Option (Session W)) : Type 0 where
    ends : (s' : Session W) → result ≡ some s' → Caught s s' → Ends s result

  full-Caught : (s : Session W) → IsValid s → can_queue_line s.transmit ≡ false → Caught s s
  unfolding can_queue_line
  full-Caught s v full = record {
    valid = v;
    exhausted = inr (ground (arith, v.transmit.count_in));
    balanced = refl;
  }

  -- The session with a line taken out of the queue, and then with the line answered.
  abbrev read_one : Session W → Session W
  read_one s = record s { received = (read_line session_protocol_line_capacity s.received).1 }

  read_one-IsValid : (s : Session W) → IsValid s → IsValid (read_one s)
  read_one-IsValid s v = record {
    received = read_line-IsValid session_protocol_line_capacity v.received;
    transmit = v.transmit;
    runner = v.runner;
  }

  -- One round: a valid session, one request fewer and one response more.
  round_lem :
      (line : Bytes) (s : Session W)
      → TokenizesInLine jsmn_parse
      → IsPrintable metadata
      → IsValid s
      → can_queue_line s.transmit ≡ true
      → let s' = process_line jsmn_parse metadata externs line (read_one s) in
        IsValid s'
        × (s'.received ≡ (read_one s).received)
        × (s'.transmit.count ≡ s.transmit.count + 1)
  unfolding process_line
  round_lem line s inside m v room =
      let (one, serves) =
        process_line-QueuesOne line (read_one s) inside m (read_one-IsValid s v) room in
      elim one [
        | queues text _ _ counted valid ↦ (
          record {
            received = read_line-IsValid session_protocol_line_capacity v.received;
            transmit = valid;
            runner = serves;
          },
          refl,
          counted,
        )
      ]

  next-Ends :
      (s s1 : Session W) (result : Option (Session W))
      → s1.received.count + s1.transmit.count ≡ s.received.count + s.transmit.count
      → Ends s1 result
      → Ends s result
  next-Ends s s1 result e (ends s' r c) =
      ends s' r (record { valid = c.valid; exhausted = c.exhausted; balanced = c.balanced ∙ e })

  pub process_lines-Ends :
      (fuel : ℕ) (s : Session W)
      → TokenizesInLine jsmn_parse
      → IsPrintable metadata
      → IsValid s
      → s.received.count < fuel
      → Ends s (process_lines jsmn_parse metadata externs fuel s)
  unfolding process_lines
  process_lines-Ends zero s inside m v enough = absurd (omega arith)
  process_lines-Ends (suc fuel) s inside m v enough =
      elim (Bool-cases (can_queue_line s.transmit)) [
        | inr full ↦ rw full (ends s refl (full-Caught s v full))
        | inl room ↦ elim (read_line-session s.received v.received) [
          | inl (e, empty, same) ↦
              rw (room, e)
                (ends (read_one s) refl (record {
                  valid = read_one-IsValid s v;
                  exhausted = inl (ap (λ r. r.count) same ∙ empty);
                  balanced = ap (λ r. r.count + s.transmit.count) same;
                }))
          | inr (line, e, fewer) ↦
              let s1 = process_line jsmn_parse metadata externs line (read_one s) in
              let (valid, received, counted) = round_lem line s inside m v room in
              let left = ap (λ r. r.count) received in
              rw (room, e)
                (next-Ends s s1 _ (omega (arith, left, fewer, counted))
                  (process_lines-Ends fuel s1 inside m valid (omega (arith, left, fewer, enough))))
        ]
      ]
