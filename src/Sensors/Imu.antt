-- ===== src/Sensors/Imu.antt =====
-- firmware/manufacturing_test/components/bmi270/bmi270_test.c and the interface of its driver,
-- firmware/manufacturing_test/drivers/bmi270/bmi270_driver.h.
pub mod Driver
pub mod Sampling
use flight_computer_test.Base.{
  ℕ, ◌+◌, ◌%◌, ◌^◌, Bool, true, false, not, Option, none, some, if◌then◌else◌,
}
use flight_computer_test.Base.Int.{ℤ}
use flight_computer_test.Base.Text.{codes}
use flight_computer_test.Registry.{ProcessResult, ComponentEvent, EventKind}
use flight_computer_test.SdCard.Component.{blank_event, message}
use flight_computer_test.Sensors.Clock.{before}

-- bmi270_test_state_t
pub data ImuState : Type 0 where
  initializing sampling failed : ImuState

-- bmi270_sample_t
pub record ImuSample : Type 0 where
  pub acceleration_x : ℤ
  pub acceleration_y : ℤ
  pub acceleration_z : ℤ
  pub gyroscope_x : ℤ
  pub gyroscope_y : ℤ
  pub gyroscope_z : ℤ

-- The driver's functions; read_sample answers the sample that it stores, if it succeeds.
pub record ImuDriver (H : Type 0) : Type 0 where
  pub initialize : H → Bool × H
  pub read_sample : H → Option ImuSample × H
  pub shutdown : H → H

-- BMI270_SAMPLE_INTERVAL_MS
abbrev pub bmi270_sample_interval_ms : ℕ
bmi270_sample_interval_ms = 100

-- The statics of the file.
pub record ImuTest : Type 0 where
  pub state : ImuState
  pub next_sample_at : ℕ
  pub latest_event : ComponentEvent

-- The event of a sample.
unfoldable pub imu_sample_event : ImuSample → ComponentEvent
imu_sample_event sample = record blank_event {
  kind = EventKind.imu_sample;
  name = some (codes "imu_sample");
  acceleration_x = sample.acceleration_x;
  acceleration_y = sample.acceleration_y;
  acceleration_z = sample.acceleration_z;
  gyroscope_x = sample.gyroscope_x;
  gyroscope_y = sample.gyroscope_y;
  gyroscope_z = sample.gyroscope_z;
}

-- bmi270_test_start
unfoldable pub bmi270_test_start : ImuTest → ImuTest
unfolding message
bmi270_test_start t = record t { state = initializing; latest_event = message (codes "imu_ready") }

module _ {H : Type 0} (driver : ImuDriver H) where
  -- bmi270_test_process, by the state; the driver is called in the branches that call it.
  unfoldable pub bmi270_process_state : ImuState → ℕ → ImuTest → H → ProcessResult × ImuTest × H
  unfolding imu_sample_event
  bmi270_process_state initializing now t h =
      let (started, h') = driver.initialize h in
      if not started
      then (ProcessResult.failed, record t { state = failed }, h')
      else (ProcessResult.event, record t { state = sampling; next_sample_at = now }, h')
  bmi270_process_state failed now t h = (ProcessResult.failed, t, h)
  bmi270_process_state sampling now t h =
      let (sample, h') = driver.read_sample h in
      let due = record t { next_sample_at = (now + bmi270_sample_interval_ms) % 2 ^ 32 } in
      if before now t.next_sample_at then (ProcessResult.running, t, h) else elim sample [
        | none ↦ (ProcessResult.failed, record due { state = failed }, h')
        | some s ↦ (ProcessResult.event, record due { latest_event = imu_sample_event s }, h')
      ]

  unfoldable pub bmi270_test_process : ℕ → ImuTest → H → ProcessResult × ImuTest × H
  unfolding bmi270_process_state
  bmi270_test_process now t h = bmi270_process_state t.state now t h

  -- bmi270_test_stop
  unfoldable pub bmi270_test_stop : H → H
  bmi270_test_stop h = driver.shutdown h
