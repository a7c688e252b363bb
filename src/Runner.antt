-- ===== src/Runner.antt =====
-- firmware/manufacturing_test/application/component_test_runner.c and .h: at most one active test.
pub mod Lifecycle
use flight_computer_test.Base.{
  ℕ, Bool, true, false, ◌||◌, Option, none, some, Bytes, ◌==◌, if◌then◌else◌,
}
use flight_computer_test.Registry.{ProcessResult, Parameters, ComponentEvent, Definition}

-- component_test_runner_state_t
pub data RunnerState : Type 0 where
  idle running : RunnerState

-- component_test_runner_update_t
pub data Update : Type 0 where
  no_change event passed failed : Update

-- component_test_runner_t; NULL for `active_definition` is `none`.
pub record Runner (W : Type 0) : Type 0 where
  pub active_definition : Option (Definition W)
  pub active_command_id : ℕ

module _ {W : Type 0} where
  -- component_test_runner_initialize
  unfoldable pub initialize : Runner W
  initialize = record { active_definition = none; active_command_id = 0 }

  -- component_test_runner_start: whether the test was started
  unfoldable pub start : Runner W → Option (Definition W) → ℕ → Parameters → W → Bool × Runner W × W
  start runner none command_id parameters w = (false, runner, w)
  start runner (some definition) command_id parameters w = elim runner.active_definition [
    | some _ ↦ (false, runner, w)
    | none ↦ if command_id == 0 then (false, runner, w) else (
      true,
      record { active_definition = some definition; active_command_id = command_id },
      definition.start parameters w,
    )
  ]

  -- What component_test_runner_process does with the result of the test's own function.
  unfoldable pub conclude : Runner W → Definition W → ProcessResult → W → Update × Runner W × W
  conclude runner definition ProcessResult.running w = (no_change, runner, w)
  conclude runner definition ProcessResult.event w = (event, runner, w)
  conclude runner definition ProcessResult.passed w = (passed, initialize, definition.stop w)
  conclude runner definition ProcessResult.failed w = (failed, initialize, definition.stop w)

  -- component_test_runner_process
  unfoldable pub process : Runner W → W → Update × Runner W × W
  unfolding conclude
  process runner w = elim runner.active_definition [
    | none ↦ (no_change, runner, w)
    | some definition ↦
        let (result, w') = definition.process w in conclude runner definition result w'
  ]

  -- component_test_runner_stop
  unfoldable pub stop : Runner W → W → Bool × Runner W × W
  stop runner w = elim runner.active_definition [
    | none ↦ (false, runner, w)
    | some definition ↦ (true, initialize, definition.stop w)
  ]

  -- component_test_runner_state
  unfoldable pub state : Runner W → RunnerState
  state runner = elim runner.active_definition [ none ↦ idle | some _ ↦ running ]

  -- component_test_runner_active_type
  unfoldable pub active_type : Runner W → Option Bytes
  active_type runner = elim runner.active_definition [ none ↦ none | some d ↦ some d.type ]

  -- component_test_runner_active_command_id
  unfoldable pub active_command_id : Runner W → ℕ
  active_command_id runner = runner.active_command_id

  -- component_test_runner_event
  unfoldable pub current_event : Runner W → W → Option ComponentEvent
  current_event runner w = elim runner.active_definition [
    | none ↦ none
    | some d ↦ elim d.event [ none ↦ none | some f ↦ some (f w) ]
  ]
