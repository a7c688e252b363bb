-- ===== src/Session/Active.antt =====
-- The active test's turn in session_protocol_process, and the whole of that function.
use flight_computer_test.Base.{
  ℕ, suc, ◌^◌, ◌<◌, ◌≡◌, inl, inr, refl, ap, Bool-cases, true, Option, none, some, Bytes, memchr,
  arith,
}
use flight_computer_test.Base.Text.{codes}
use flight_computer_test.Transport.{
  TransmitLines, line_queue_depth, transmit_queue_depth, can_queue_line,
}
use flight_computer_test.Transport.Outgoing as Outgoing
use flight_computer_test.Transport.Outgoing.{queued, terminated, queue_line-IsValid}
use flight_computer_test.Registry.{Externs, Definition, ProcessResult, ComponentEvent}
use flight_computer_test.Runner.{
  Runner, no_change, initialize, conclude, process, active_type, active_command_id, current_event,
}
use flight_computer_test.Request.Parse.Settled.{TokenizesInLine}
use flight_computer_test.Response.{
  SessionMetadata, json_protocol_build_test_response, json_protocol_build_test_event,
}
use flight_computer_test.Response.Clean.{Prints, Prints-le, literal}
use flight_computer_test.Response.Fits.{
  Builds, Builds-le, IsPrintable, json_protocol_build_test_response-Builds,
}
use flight_computer_test.Response.Events.{IsReportable, json_protocol_build_test_event-Builds}
use flight_computer_test.Session.{
  Session, JsmnParse, queue_response, update_response, process_active, session_protocol_process,
  session_protocol_line_capacity,
}
use flight_computer_test.Session.Answer.{Serves, free, busy, state_free, state_busy, type_busy}
use flight_computer_test.Session.Loop.{
  IsValid, QueuesOne, queue_response-QueuesOne, room-count, Caught, ends, process_lines-Ends,
}

completion :
    (command_id : ℕ) (type status : Bytes)
    → command_id < 2 ^ 32
    → Prints 32 type
    → Prints 32 status
    → Builds 4000 (
        json_protocol_build_test_response
          (codes "TEST_COMPLETED")
          command_id
          type
          status
          session_protocol_line_capacity)
unfolding memchr
completion command_id type status l pt ps = Builds-le (omega arith) (
    json_protocol_build_test_response-Builds (codes "TEST_COMPLETED") command_id type status
      session_protocol_line_capacity l (omega arith)
      (Prints-le (omega arith) (literal (codes "TEST_COMPLETED") refl refl)) pt ps)

queue_response-IsValid :
    (built : Option Bytes) (t : TransmitLines)
    → Outgoing.IsValid t
    → Outgoing.IsValid (queue_response built t)
unfolding queue_response
queue_response-IsValid none t v = v
queue_response-IsValid (some line) t v = queue_line-IsValid line v

module _ {W : Type 0} where
  -- The test's event is put behind the lines to transmit.
  abbrev pub Reported : Definition W → Session W → Session W → Type 0
  Reported d s s' =
      QueuesOne
        (json_protocol_build_test_event s.runner.active_command_id (some d.type)
          (current_event s.runner (d.process s.world).1) session_protocol_line_capacity)
        s.transmit s'.transmit

  -- What the turn of the active test `d` does, by the result of the test's own function: it goes
  -- on; or it reports an event; or it is over, one way or the other, and then its cleanup has run,
  -- the runner is free, and the completion is queued under the command that started the test.
  abbrev pub Turn : Definition W → ProcessResult → Session W → Session W → Type 0
  Turn d ProcessResult.running s s' =
      (s'.runner ≡ s.runner) × (s'.world ≡ (d.process s.world).1) × (s'.transmit ≡ s.transmit)
  Turn d ProcessResult.event s s' =
      (s'.runner ≡ s.runner) × (s'.world ≡ (d.process s.world).1) × Reported d s s'
  Turn d ProcessResult.passed s s' =
      (s'.runner ≡ initialize)
      × (s'.world ≡ d.stop (d.process s.world).1)
      × QueuesOne
          (json_protocol_build_test_response (codes "TEST_COMPLETED") s.runner.active_command_id
            d.type (codes "passed") session_protocol_line_capacity)
          s.transmit s'.transmit
  Turn d ProcessResult.failed s s' =
      (s'.runner ≡ initialize)
      × (s'.world ≡ d.stop (d.process s.world).1)
      × QueuesOne
          (json_protocol_build_test_response (codes "TEST_COMPLETED") s.runner.active_command_id
            d.type (codes "failed") session_protocol_line_capacity)
          s.transmit s'.transmit

  -- A test that can report: it has an event function, and what that fills in is reportable.
  pub data Reports (d : Definition W) : Type 0 where
    reports :
        (f : W → ComponentEvent) → d.event ≡ some f → ((w : W) → IsReportable (f w)) → Reports d

  event_found :
      (d : Definition W) (runner : Runner W) (w : W) (f : W → ComponentEvent)
      → runner.active_definition ≡ some d
      → d.event ≡ some f
      → current_event runner w ≡ some (f w)
  unfolding current_event
  event_found d runner w f e has = ground (arith, e, has)

  event-Builds :
      (d : Definition W) (runner : Runner W) (w : W)
      → runner.active_definition ≡ some d
      → Prints 32 d.type
      → runner.active_command_id < 2 ^ 32
      → Reports d
      → Builds 4000 (
          json_protocol_build_test_event runner.active_command_id
            (some d.type)
            (current_event runner w)
            session_protocol_line_capacity)
  event-Builds d runner w e pt l (reports f has sound) =
      let found : current_event runner w ≡ some (f w) = event_found d runner w f e has in
      rw found (
        Builds-le (omega arith) (
          json_protocol_build_test_event-Builds runner.active_command_id d.type (f w)
            session_protocol_line_capacity l (omega arith) pt (sound w)))

  -- A turn's session: the runner, the world and the response that it ends with.
  abbrev after : Session W → Runner W → W → Option Bytes → Session W
  after s runner w response = record s {
    runner = runner;
    world = w;
    transmit = queue_response response s.transmit;
  }

  conclude-Turn :
      (d : Definition W) (s : Session W) (result : ProcessResult)
      → s.runner.active_definition ≡ some d
      → Prints 32 d.type
      → s.runner.active_command_id < 2 ^ 32
      → (result ≡ ProcessResult.event → Reports d)
      → IsValid s
      → s.transmit.count < transmit_queue_depth
      → let (update, runner, w) = conclude s.runner d result (d.process s.world).1 in
        Turn d result s (
          after s runner w
            (update_response update (active_command_id s.runner) (active_type s.runner) runner w))
  unfolding conclude update_response active_command_id queue_response memchr
  conclude-Turn d s ProcessResult.running e pt l r v room = (refl, refl, refl)
  conclude-Turn d s ProcessResult.event e pt l r v room = rw (type_busy s.runner d e) (
    refl,
    refl,
    queue_response-QueuesOne _ s.transmit (omega arith)
        (event-Builds d s.runner (d.process s.world).1 e pt l (r refl)) v.transmit room,
  )
  conclude-Turn d s ProcessResult.passed e pt l r v room = rw (type_busy s.runner d e) (
    refl,
    refl,
    queue_response-QueuesOne _ s.transmit (omega arith)
        (completion s.runner.active_command_id d.type (codes "passed") l pt
          (Prints-le (omega arith) (literal (codes "passed") refl refl)))
        v.transmit room,
  )
  conclude-Turn d s ProcessResult.failed e pt l r v room = rw (type_busy s.runner d e) (
    refl,
    refl,
    queue_response-QueuesOne _ s.transmit (omega arith)
        (completion s.runner.active_command_id d.type (codes "failed") l pt
          (Prints-le (omega arith) (literal (codes "failed") refl refl)))
        v.transmit room,
  )

  process_busy :
      (runner : Runner W) (d : Definition W) (w : W)
      → runner.active_definition ≡ some d
      → process runner w ≡ conclude runner d (d.process w).0 (d.process w).1
  unfolding process
  process_busy runner d w e =
      ap
        (λ (a : Option (Definition W)). elim a [
          | none ↦ (no_change, runner, w)
          | some d' ↦ conclude runner d' (d'.process w).0 (d'.process w).1
        ])
        e

  -- On a well-formed session, while a test with a printable type, a 32-bit command id and reportable
  -- events is active and there is room for a line, its process function is called once, and
  -- its result decides: nothing is queued while it goes on, its event is queued, or the test is
  -- cleaned up, the runner is free and TEST_COMPLETED is queued with the test's own outcome.
  pub process_active-Turn :
      (d : Definition W) (s : Session W)
      → s.runner.active_definition ≡ some d
      → Prints 32 d.type
      → s.runner.active_command_id < 2 ^ 32
      → ((d.process s.world).0 ≡ ProcessResult.event → Reports d)
      → IsValid s
      → can_queue_line s.transmit ≡ true
      → Turn d (d.process s.world).0 s (process_active s)
  unfolding process_active
  process_active-Turn d s e pt l r v room =
      rw (room, state_busy s.runner d e, process_busy s.runner d s.world e)
        (conclude-Turn d s (d.process s.world).0 e pt l r v (room-count s.transmit room))

  conclude-Serves :
      (d : Definition W) (runner : Runner W) (result : ProcessResult) (w : W)
      → Serves runner
      → Serves (conclude runner d result w).1
  unfolding conclude initialize
  conclude-Serves d runner ProcessResult.running w v = v
  conclude-Serves d runner ProcessResult.event w v = v
  conclude-Serves d runner ProcessResult.passed w v = free refl
  conclude-Serves d runner ProcessResult.failed w v = free refl

  process_active-IsValid : (s : Session W) → IsValid s → IsValid (process_active s)
  unfolding process_active
  process_active-IsValid s v = elim (Bool-cases (can_queue_line s.transmit)) [
    | inr full ↦ rw full v
    | inl room ↦ elim v.runner [
      | free e ↦ rw (room, state_free s.runner e) v
      | busy d e p l h ↦
          rw (room, state_busy s.runner d e, process_busy s.runner d s.world e)
            (record {
              received = v.received;
              transmit = queue_response-IsValid _ s.transmit v.transmit;
              runner =
                  conclude-Serves d s.runner (d.process s.world).0 (d.process s.world).1
                    (busy d e p l h);
            })
    ]
  ]

  -- With printable device texts and tokens inside the line, one call of session_protocol_process
  -- comes to an end on every well-formed session. Its loop has answered requests, one line for
  -- each, until none was left or no room for a response; the active test's turn follows, and the
  -- session is well-formed again.
  pub session_protocol_process-Caught :
      (jsmn_parse : JsmnParse) (metadata : SessionMetadata) (externs : Externs W) (s : Session W)
      → TokenizesInLine jsmn_parse
      → IsPrintable metadata
      → IsValid s
      → (s1 : Session W) × Caught jsmn_parse metadata externs s s1
        × (session_protocol_process jsmn_parse metadata externs s ≡ some (process_active s1))
        × IsValid (process_active s1)
  unfolding session_protocol_process
  session_protocol_process-Caught jsmn_parse metadata externs s inside m v =
      let few = v.received.count_in in
      let loop =
        process_lines-Ends jsmn_parse metadata externs (suc line_queue_depth) s inside m v
          (omega arith) in
      elim loop [
        | ends s1 e c ↦ (
          s1,
          c,
          ap
              (λ (r : Option (Session W)). elim r [
                | none ↦ none
                | some s' ↦ some (process_active s')
              ])
              e,
          process_active-IsValid s1 c.valid,
        )
      ]
