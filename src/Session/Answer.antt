-- ===== src/Session/Answer.antt =====
-- Each request line is answered by exactly one line.
use flight_computer_test.Base.{
  ℕ, ◌^◌, ◌≤◌, ◌<◌, ◌≡◌, refl, sym, subst, false, Option, none, some, List, [], ◌∷◌, Bytes, length,
  memchr, All, arith,
}
use flight_computer_test.Base.Text.{codes}
use flight_computer_test.Registry.{Externs, Definition, production_tests}
use flight_computer_test.Registry.Lookup.{
  Answers, FirstOf, first, later, component_registry_find-Answers,
}
use flight_computer_test.Runner.{Runner, idle, running, state, active_type, start, stop, initialize}
use flight_computer_test.Request.{Request}
use flight_computer_test.Request.Fields.{IsTestType, IsTypeCharacter}
use flight_computer_test.Request.Parse.{Parsed, ok, rejected, out_of_range, out_of_fuel}
use flight_computer_test.Request.Parse.Accepted.{IsAccepted, Shape}
use flight_computer_test.Request.Parse.Safe.{Returns}
use flight_computer_test.Response.{SessionMetadata, json_protocol_build_test_response}
use flight_computer_test.Response.Clean.{Prints, Prints-le, literal}
use flight_computer_test.Response.Fits.{
  Builds, Builds-le, IsPrintable, json_protocol_build_error_response-Builds,
  json_protocol_build_test_response-Builds, json_protocol_build_start_test_response-Builds,
}
use flight_computer_test.Session.{
  Outcome, error_response, start_found, run_request, stop_request, answer_request,
  session_protocol_line_capacity, parameters_of,
}

memchr-type :
    (text : Bytes) (byte : ℕ) → byte < b'0' → All IsTypeCharacter text → memchr text byte ≡ false
unfolding memchr
memchr-type [] byte l h = refl
memchr-type (x ∷ xs) byte l h = ground (arith, memchr-type xs byte l h.1, h.0)

IsTestType-Prints : (text : Bytes) → IsTestType text → Prints 32 text
IsTestType-Prints text t = record {
  short = omega (arith, t.short);
  no_newline = memchr-type text b'\n' (omega arith) t.characters;
  no_return = memchr-type text b'\r' (omega arith) t.characters;
}

word :
    (text : Bytes)
    → length text ≤ 32
    → memchr text b'\n' ≡ false
    → memchr text b'\r' ≡ false
    → Prints 32 text
word text l a b = Prints-le l (literal text a b)

test_response-Builds :
    (response_type : Bytes) (command_id : ℕ) (type status : Bytes)
    → command_id < 2 ^ 32
    → Prints 32 response_type
    → Prints 32 type
    → Prints 32 status
    → Builds 4000 (
        json_protocol_build_test_response response_type command_id type status
          session_protocol_line_capacity)
test_response-Builds response_type command_id type status l pr pt ps = Builds-le (omega arith) (
    json_protocol_build_test_response-Builds response_type command_id type status
      session_protocol_line_capacity l (omega arith) pr pt ps)

module _ {W : Type 0} where
  FirstOf-type :
      (d : Definition W) (type : Bytes) (ds : List (Definition W))
      → FirstOf d type ds
      → d.type ≡ type
  FirstOf-type d type [] f = elim f [ ]
  FirstOf-type d type (x ∷ ds) (first e) = e
  FirstOf-type d type (x ∷ ds) (later n f) = FirstOf-type d type ds f

  -- What the session keeps of its runner: it is free, or it has a test with a printable type and
  -- the 32-bit id of the command that started it.
  pub data Serves (runner : Runner W) : Type 0 where
    free : runner.active_definition ≡ none → Serves runner
    busy :
        (d : Definition W)
        → runner.active_definition ≡ some d
        → Prints 32 d.type
        → 0 < runner.active_command_id
        → runner.active_command_id < 2 ^ 32
        → Serves runner

  -- The response is a line of at most 4000 bytes, and the runner is well-formed.
  pub record IsAnswer (outcome : Outcome W) : Type 0 where
    pub response : Builds 4000 outcome.response
    pub runner : Serves outcome.runner

  error_response-IsAnswer :
      (command_id : ℕ) (error_code : Bytes) (runner : Runner W) (w : W)
      → command_id < 2 ^ 32
      → Prints 32 error_code
      → Serves runner
      → IsAnswer (error_response command_id error_code runner w)
  unfolding error_response
  error_response-IsAnswer command_id error_code runner w l p s = record {
    response = Builds-le (omega arith) (
        json_protocol_build_error_response-Builds command_id error_code
          session_protocol_line_capacity l (omega arith) p);
    runner = s;
  }

  start-Serves :
      (runner : Runner W) (d : Definition W) (r : Request) (w : W)
      → runner.active_definition ≡ none
      → IsAccepted r
      → Prints 32 d.type
      → Serves (start runner (some d) r.command_id (parameters_of r) w).1
  unfolding start
  start-Serves runner d r w e a p =
      busy d (ground (arith, e, a.id_positive)) p (ground (arith, e, a.id_positive))
        (ground (arith, e, a.id_positive, a.id_fits))

  pub state_free : (runner : Runner W) → runner.active_definition ≡ none → state runner ≡ idle
  unfolding state
  state_free runner e = ground arith

  pub state_busy :
      (runner : Runner W) (d : Definition W)
      → runner.active_definition ≡ some d
      → state runner ≡ running
  unfolding state
  state_busy runner d e = ground arith

  pub type_free : (runner : Runner W) → runner.active_definition ≡ none → active_type runner ≡ none
  unfolding active_type
  type_free runner e = ground arith

  pub type_busy :
      (runner : Runner W) (d : Definition W)
      → runner.active_definition ≡ some d
      → active_type runner ≡ some d.type
  unfolding active_type
  type_busy runner d e = ground arith

  stop-free : (runner : Runner W) (w : W) → (stop runner w).1.active_definition ≡ none
  unfolding stop initialize
  stop-free runner w = ground arith

  start_found-IsAnswer :
      (ds : List (Definition W)) (r : Request) (runner : Runner W) (w : W)
      (found : Option (Definition W))
      → Answers ds r.test_type found
      → runner.active_definition ≡ none
      → IsAccepted r
      → IsTestType r.test_type
      → IsAnswer (start_found r runner w found)
  unfolding start_found memchr
  start_found-IsAnswer ds r runner w none f e a t =
      error_response-IsAnswer r.command_id (codes "unsupported_test_type") runner w a.id_fits
        (word _ (omega arith) refl refl) (free e)
  start_found-IsAnswer ds r runner w (some d) f e a t =
      let p : Prints 32 d.type =
        subst (Prints 32) (sym (FirstOf-type d r.test_type ds f))
          (IsTestType-Prints r.test_type t) in
      record {
        response =
            test_response-Builds (codes "TEST_STARTED") r.command_id d.type (codes "running")
              a.id_fits (word _ (omega arith) refl refl) p (word _ (omega arith) refl refl);
        runner = start-Serves runner d r w e a p;
      }

  run_request-IsAnswer :
      (externs : Externs W) (r : Request) (runner : Runner W) (w : W)
      → IsAccepted r
      → IsTestType r.test_type
      → Serves runner
      → IsAnswer (run_request externs r runner w)
  unfolding run_request memchr
  run_request-IsAnswer externs r runner w a t (busy d e p l h) =
      rw (run_request, state_busy runner d e)
        (error_response-IsAnswer r.command_id (codes "test_already_active") runner w a.id_fits
          (word _ (omega arith) refl refl) (busy d e p l h))
  run_request-IsAnswer externs r runner w a t (free e) =
      rw (run_request, state_free runner e)
        (start_found-IsAnswer (production_tests externs) r runner w _
          (component_registry_find-Answers (production_tests externs) r.test_type) e a t)

  stop_request-IsAnswer :
      (r : Request) (runner : Runner W) (w : W)
      → IsAccepted r
      → Serves runner
      → IsAnswer (stop_request r runner w)
  unfolding stop_request memchr
  stop_request-IsAnswer r runner w a (free e) =
      rw (stop_request, type_free runner e)
        (error_response-IsAnswer r.command_id (codes "no_active_test") runner w a.id_fits
          (word _ (omega arith) refl refl) (free e))
  stop_request-IsAnswer r runner w a (busy d e p l h) =
      rw (stop_request, type_busy runner d e)
        (record {
          response =
              test_response-Builds (codes "TEST_STOPPED") r.command_id d.type (codes "stopped")
                a.id_fits (word _ (omega arith) refl refl) p (word _ (omega arith) refl refl);
          runner = free (stop-free runner w);
        })

  accepted-IsAnswer :
      (metadata : SessionMetadata) (externs : Externs W) (r : Request) (runner : Runner W) (w : W)
      → IsPrintable metadata
      → IsAccepted r
      → Shape r
      → Serves runner
      → IsAnswer (answer_request metadata externs (ok r) runner w)
  unfolding answer_request
  accepted-IsAnswer metadata externs r runner w m a (Shape.start e _ _ _) s = simp e (record {
    response =
        json_protocol_build_start_test_response-Builds r.command_id metadata
          session_protocol_line_capacity a.id_fits (omega arith) m;
    runner = s;
  })
  accepted-IsAnswer metadata externs r runner w m a (Shape.run e _ t _) s =
      simp e (run_request-IsAnswer externs r runner w a t s)
  accepted-IsAnswer metadata externs r runner w m a (Shape.stop e _ _ _) s =
      simp e (stop_request-IsAnswer r runner w a s)

  -- Every request that the parser accepts, and every line that it rejects, makes a response of at
  -- most 4000 bytes without a line break, if the device's texts are printable; the runner stays
  -- well-formed.
  pub answer_request-IsAnswer :
      (metadata : SessionMetadata) (externs : Externs W) (parsed : Parsed Request)
      (runner : Runner W) (w : W)
      → IsPrintable metadata
      → Returns IsAccepted parsed
      → Serves runner
      → IsAnswer (answer_request metadata externs parsed runner w)
  unfolding answer_request memchr
  answer_request-IsAnswer metadata externs (ok r) runner w m a s =
      accepted-IsAnswer metadata externs r runner w m a a.shape s
  answer_request-IsAnswer metadata externs rejected runner w m a s =
      error_response-IsAnswer 0 (codes "invalid_request") runner w (omega arith)
        (word _ (omega arith) refl refl) s
  answer_request-IsAnswer metadata externs out_of_range runner w m a s = absurd a
  answer_request-IsAnswer metadata externs out_of_fuel runner w m a s = absurd a
