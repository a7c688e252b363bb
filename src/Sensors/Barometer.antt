-- ===== src/Sensors/Barometer.antt =====
-- firmware/manufacturing_test/components/bmp388/bmp388_test.c and the interface of its driver,
-- firmware/manufacturing_test/drivers/bmp388/bmp388_driver.h.
pub mod Driver
pub mod Pace
use flight_computer_test.Base.{
  ℕ, ◌+◌, ◌%◌, ◌^◌, Bool, true, false, not, Option, none, some, Bytes, if◌then◌else◌,
}
use flight_computer_test.Base.Int.{ℤ}
use flight_computer_test.Base.Text.{codes}
use flight_computer_test.Registry.{ProcessResult, ComponentEvent, EventKind}
use flight_computer_test.SdCard.Component.{blank_event, message}
use flight_computer_test.Sensors.Clock.{before}

-- bmp388_test_state_t
pub data BarometerState : Type 0 where
  initializing settling sampling failed : BarometerState

-- bmp388_sample_t
pub record BarometerSample : Type 0 where
  pub pressure_centi_pa : ℤ
  pub temperature_centi_c : ℤ

-- bmp388_failure_t
pub record BarometerFailure : Type 0 where
  pub stage : Option Bytes
  pub reason : Option Bytes
  pub code : ℤ

-- The driver's functions; read_sample answers the sample that it stores, if it succeeds.
pub record BarometerDriver (H : Type 0) : Type 0 where
  pub initialize : H → Bool × H
  pub read_sample : H → Option BarometerSample × H
  pub shutdown : H → H
  pub last_failure : H → BarometerFailure

-- BMP388_SAMPLE_INTERVAL_MS and BMP388_SETTLING_TIME_MS
abbrev pub bmp388_sample_interval_ms : ℕ
bmp388_sample_interval_ms = 200

abbrev pub bmp388_settling_time_ms : ℕ
bmp388_settling_time_ms = 2000

-- The statics of the file.
pub record BarometerTest : Type 0 where
  pub state : BarometerState
  pub next_sample_at : ℕ
  pub latest_event : ComponentEvent

-- The event of report_driver_failure.
unfoldable pub driver_failure : BarometerFailure → ComponentEvent
driver_failure failure = record blank_event {
  kind = EventKind.failure;
  name = some (codes "component_failure");
  failure_stage = failure.stage;
  failure_reason = failure.reason;
  failure_code = failure.code;
}

-- The event of a sample.
unfoldable pub sample_event : BarometerSample → ComponentEvent
sample_event sample = record blank_event {
  kind = EventKind.barometer_sample;
  name = some (codes "barometer_sample");
  pressure_centi_pa = sample.pressure_centi_pa;
  temperature_centi_c = sample.temperature_centi_c;
}

-- bmp388_test_start
unfoldable pub bmp388_test_start : BarometerTest → BarometerTest
unfolding message
bmp388_test_start t = record t {
  state = initializing;
  latest_event = message (codes "barometer_ready");
}

module _ {H : Type 0} (driver : BarometerDriver H) where
  -- report_driver_failure with the change of state that follows each of its calls.
  unfoldable pub report_driver_failure : BarometerTest → H → ProcessResult × BarometerTest × H
  unfolding driver_failure
  report_driver_failure t h = (
    ProcessResult.event,
    record t { state = failed; latest_event = driver_failure (driver.last_failure h) },
    h,
  )

  -- bmp388_test_process, by the state; the driver is called in the branches that call it.
  unfoldable pub bmp388_process_state :
      BarometerState → ℕ → BarometerTest → H → ProcessResult × BarometerTest × H
  unfolding report_driver_failure message sample_event
  bmp388_process_state initializing now t h =
      let (started, h') = driver.initialize h in
      if not started then report_driver_failure t h' else (
        ProcessResult.event,
        record t {
          state = settling;
          next_sample_at = (now + bmp388_settling_time_ms) % 2 ^ 32;
          latest_event = message (codes "barometer_stabilizing");
        },
        h',
      )
  bmp388_process_state settling now t h =
      if before now t.next_sample_at then (ProcessResult.running, t, h) else (
        ProcessResult.event,
        record t {
          state = sampling;
          next_sample_at = now;
          latest_event = message (codes "barometer_ready");
        },
        h,
      )
  bmp388_process_state failed now t h = (ProcessResult.failed, t, h)
  bmp388_process_state sampling now t h =
      let (sample, h') = driver.read_sample h in
      let due = record t { next_sample_at = (now + bmp388_sample_interval_ms) % 2 ^ 32 } in
      if before now t.next_sample_at then (ProcessResult.running, t, h) else elim sample [
        | none ↦ report_driver_failure due h'
        | some s ↦ (ProcessResult.event, record due { latest_event = sample_event s }, h')
      ]

  unfoldable pub bmp388_test_process : ℕ → BarometerTest → H → ProcessResult × BarometerTest × H
  unfolding bmp388_process_state
  bmp388_test_process now t h = bmp388_process_state t.state now t h

  -- bmp388_test_stop
  unfoldable pub bmp388_test_stop : H → H
  bmp388_test_stop h = driver.shutdown h
