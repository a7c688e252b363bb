-- ===== src/Session/Commands.antt =====
-- What RUN_COMPONENT_TEST and STOP_COMPONENT_TEST do.
use flight_computer_test.Base.{◌≡◌, ◌⊎◌, inl, inr, ap, refl, true, Option, none, some, arith}
use flight_computer_test.Base.Text.{codes}
use flight_computer_test.Registry.{Externs, Definition, production_tests, component_registry_find}
use flight_computer_test.Runner.{Runner, initialize, start, stop}
use flight_computer_test.Request.{Request}
use flight_computer_test.Request.Parse.Accepted.{IsAccepted}
use flight_computer_test.Response.{json_protocol_build_test_response}
use flight_computer_test.Session.{
  Outcome, run_request, stop_request, start_found, error_response, parameters_of,
  session_protocol_line_capacity,
}
use flight_computer_test.Session.Answer.{state_free, state_busy, type_free, type_busy}

module _ {W : Type 0} where
  active_cases :
      (runner : Runner W)
      → (runner.active_definition ≡ none)
        ⊎ ((d : Definition W) × (runner.active_definition ≡ some d))
  active_cases runner = cases runner.active_definition refl
    where
      cases :
          (active : Option (Definition W))
          → runner.active_definition ≡ active
          → (runner.active_definition ≡ none)
            ⊎ ((d : Definition W) × (runner.active_definition ≡ some d))
      cases none e = inl e
      cases (some d) e = inr (d, e)

  start_free :
      (runner : Runner W) (d : Definition W) (r : Request) (w : W)
      → runner.active_definition ≡ none
      → IsAccepted r
      → start runner (some d) r.command_id (parameters_of r) w ≡ (
        true,
        record { active_definition = some d; active_command_id = r.command_id },
        d.start (parameters_of r) w,
      )
  unfolding start
  start_free runner d r w e a = ground (arith, e, a.id_positive)

  -- What a run request may come to: refused while a test is active, refused for a type that the
  -- registry does not have, or the test of that type started on the request's colour.
  pub data Runs (externs : Externs W) (r : Request) (runner : Runner W) (w : W)
      (outcome : Outcome W) : Type 0 where
    active :
        (d : Definition W)
        → runner.active_definition ≡ some d
        → outcome ≡ error_response r.command_id (codes "test_already_active") runner w
        → Runs externs r runner w outcome
    unknown :
        runner.active_definition ≡ none
        → component_registry_find (some (production_tests externs)) (some r.test_type) ≡ none
        → outcome ≡ error_response r.command_id (codes "unsupported_test_type") runner w
        → Runs externs r runner w outcome
    starts :
        (d : Definition W)
        → runner.active_definition ≡ none
        → component_registry_find (some (production_tests externs)) (some r.test_type) ≡ some d
        → outcome.response
          ≡ json_protocol_build_test_response
              (codes "TEST_STARTED")
              r.command_id
              d.type
              (codes "running")
              session_protocol_line_capacity
        → outcome.runner ≡ record { active_definition = some d; active_command_id = r.command_id }
        → outcome.world ≡ d.start (parameters_of r) w
        → Runs externs r runner w outcome

  found-Runs :
      (externs : Externs W) (r : Request) (runner : Runner W) (w : W)
      (found : Option (Definition W))
      → IsAccepted r
      → runner.active_definition ≡ none
      → component_registry_find (some (production_tests externs)) (some r.test_type) ≡ found
      → Runs externs r runner w (start_found r runner w found)
  unfolding start_found
  found-Runs externs r runner w none a e f = unknown e f refl
  found-Runs externs r runner w (some d) a e f =
      let started = start_free runner d r w e a in
      starts d e f refl (ap (λ out. out.1) started) (ap (λ out. out.2) started)

  -- An accepted run request is refused, without any effect on the tests, if one is active or if the
  -- registry has none of its type. Otherwise it always starts the test, although the code drops the
  -- runner's answer: the test's start function has run on the request's colour, the test is the
  -- active one under the request's id, and the response is TEST_STARTED for it.
  pub run_request-Runs :
      (externs : Externs W) (r : Request) (runner : Runner W) (w : W)
      → IsAccepted r
      → Runs externs r runner w (run_request externs r runner w)
  unfolding run_request
  run_request-Runs externs r runner w a = elim (active_cases runner) [
    | inl e ↦ rw (run_request, state_free runner e) (found-Runs externs r runner w _ a e refl)
    | inr (d, e) ↦ rw (run_request, state_busy runner d e) (active d e refl)
  ]

  stop_busy :
      (runner : Runner W) (d : Definition W) (w : W)
      → runner.active_definition ≡ some d
      → stop runner w ≡ (true, initialize, d.stop w)
  unfolding stop
  stop_busy runner d w e = ground (arith, e)

  -- A stop request cleans the active test up, frees the runner and answers TEST_STOPPED for that
  -- test; with no active test it changes nothing and answers no_active_test.
  pub stop_request_lem :
      (r : Request) (runner : Runner W) (w : W)
      → let outcome = stop_request r runner w in
        ((d : Definition W) × (runner.active_definition ≡ some d)
          × (outcome.response
              ≡ json_protocol_build_test_response
                  (codes "TEST_STOPPED")
                  r.command_id
                  d.type
                  (codes "stopped")
                  session_protocol_line_capacity)
          × (outcome.runner ≡ initialize)
          × (outcome.world ≡ d.stop w))
        ⊎ ((runner.active_definition ≡ none)
            × (outcome ≡ error_response r.command_id (codes "no_active_test") runner w))
  unfolding stop_request
  stop_request_lem r runner w = elim (active_cases runner) [
    | inl e ↦ inr (e, rw (stop_request, type_free runner e) refl)
    | inr (d, e) ↦
        rw (stop_request, type_busy runner d e, stop_busy runner d w e)
          (inl (d, e, refl, refl, refl))
  ]
