-- ===== src/Sensors/Barometer/Driver/Reports.antt =====
-- What bmp388_driver.c tells the component test: its failures have a stage, a reason and a code, and its
-- samples are in range.
use flight_computer_test.Base.{
  Bool-cases, inl, inr, Option-cases, ℕ, ◌-◌, ◌^◌, ◌<◌, ◌≤◌, ◌≡◌, refl, subst, Bool, true, false,
  Option, none, some, Bytes, ltb, length, memchr, arith, if◌then◌else◌,
}
use flight_computer_test.Base.Int.{ℤ, pos, negsuc}
use flight_computer_test.Base.Text.{codes}
use flight_computer_test.Registry.{ProcessResult}
use flight_computer_test.Response.Clean.{Prints-le, literal}
use flight_computer_test.Response.Events.{IsInt32, Tells, tells, IsReportable}
use flight_computer_test.SdCard.Component.{message}
use flight_computer_test.SdCard.Driver.Blocks.{to_int32}
use flight_computer_test.Sensors.Barometer.{
  BarometerState, BarometerSample, BarometerFailure, BarometerDriver, BarometerTest, initializing,
  settling, sampling, failed, driver_failure, sample_event, report_driver_failure,
  bmp388_process_state, bmp388_test_process,
}
use flight_computer_test.Sensors.Clock.{before}
use flight_computer_test.Sensors.Barometer.Driver.{
  BoschResult, failure_reason, comm_fail, dev_not_found, invalid_odr_osr_settings, cmd_exec_failed,
  configuration_err, success, other, barometer_failure, fits_int32,
}

-- A failure record that is filled in.
pub record Filed (found : BarometerFailure) : Type 0 where
  pub stage : Tells found.stage
  pub reason : Tells found.reason
  pub code : IsInt32 found.code

-- An initialization succeeds, or leaves its failure.
abbrev pub Started : Bool → BarometerFailure → Type 0
Started true found = Unit
Started false found = Filed found

-- A reading succeeds with numbers in range, or leaves its failure.
abbrev pub Sampled : Option BarometerSample → BarometerFailure → Type 0
Sampled none found = Filed found
Sampled (some s) found = IsInt32 s.pressure_centi_pa × IsInt32 s.temperature_centi_c

-- What the component test relies on.
pub record Reports {H : Type 0} (driver : BarometerDriver H) : Type 0 where
  pub starts :
      (h : H) → let (started, h') = driver.initialize h in Started started (driver.last_failure h')
  pub samples :
      (h : H) → let (sample, h') = driver.read_sample h in Sampled sample (driver.last_failure h')

-- The range of an int8_t.
abbrev pub IsInt8 : ℤ → Type 0
IsInt8 (pos n) = n < 2 ^ 7
IsInt8 (negsuc n) = n < 2 ^ 7

pub IsInt8-IsInt32 : (n : ℤ) → IsInt8 n → IsInt32 n
IsInt8-IsInt32 (pos n) l = omega (arith, l)
IsInt8-IsInt32 (negsuc n) l = omega (arith, l)

pub to_int32-IsInt32 : (n : ℕ) → n < 2 ^ 32 → IsInt32 (to_int32 n)
to_int32-IsInt32 n l = within (ltb n (2 ^ 31)) refl
  where
    within :
        (low : Bool)
        → ltb n (2 ^ 31) ≡ low
        → IsInt32 (if low then pos n else negsuc (2 ^ 32 - 1 - n))
    within true e = ground (arith, e)
    within false e = ground (arith, e, l)

pub fits_int32-IsInt32 : (n : ℤ) → fits_int32 n ≡ true → IsInt32 n
fits_int32-IsInt32 (pos n) e = ground (arith, e)
fits_int32-IsInt32 (negsuc n) e = ground (arith, e)

-- A short text on one line.
pub told :
    (text : Bytes)
    → length text ≤ 48
    → memchr text b'\n' ≡ false
    → memchr text b'\r' ≡ false
    → Tells (some text)
told text l a b = tells text refl (Prints-le l (literal text a b))

pub failure_reason-Tells : (result : BoschResult) → Tells (some (failure_reason result))
unfolding failure_reason memchr
failure_reason-Tells comm_fail = told (failure_reason comm_fail) (omega arith) refl refl
failure_reason-Tells dev_not_found = told (failure_reason dev_not_found) (omega arith) refl refl
failure_reason-Tells invalid_odr_osr_settings =
    told (failure_reason invalid_odr_osr_settings) (omega arith) refl refl
failure_reason-Tells cmd_exec_failed = told (failure_reason cmd_exec_failed) (omega arith) refl refl
failure_reason-Tells configuration_err =
    told (failure_reason configuration_err) (omega arith) refl refl
failure_reason-Tells success = told (failure_reason success) (omega arith) refl refl
failure_reason-Tells (other n) = told (codes "bosch_driver_error") (omega arith) refl refl

-- The failures that the driver writes.
pub filed :
    (stage reason : Bytes) (code : ℤ)
    → Tells (some stage)
    → Tells (some reason)
    → IsInt32 code
    → Filed (barometer_failure stage reason code)
filed stage reason code s r c = record { stage = s; reason = r; code = c }

-- The events of the component test.
message-IsReportable : (name : Bytes) → Tells (some name) → IsReportable (message name)
unfolding message
message-IsReportable name t = record {
  name = t;
  acceleration = (omega arith, omega arith, omega arith);
  gyroscope = (omega arith, omega arith, omega arith);
  pressure = omega arith;
  temperature = omega arith;
  sector_count = omega arith;
  test_sector = omega arith;
  checksum = omega arith;
  failure_texts = λ e. ground (arith, e);
  failure_code = omega arith;
}

sample_event-IsReportable :
    (s : BarometerSample)
    → IsInt32 s.pressure_centi_pa
    → IsInt32 s.temperature_centi_c
    → IsReportable (sample_event s)
unfolding sample_event memchr
sample_event-IsReportable s p t = record {
  name = told (codes "barometer_sample") (omega arith) refl refl;
  acceleration = (omega arith, omega arith, omega arith);
  gyroscope = (omega arith, omega arith, omega arith);
  pressure = p;
  temperature = t;
  sector_count = omega arith;
  test_sector = omega arith;
  checksum = omega arith;
  failure_texts = λ e. ground (arith, e);
  failure_code = omega arith;
}

driver_failure-IsReportable :
    (found : BarometerFailure) → Filed found → IsReportable (driver_failure found)
unfolding driver_failure memchr
driver_failure-IsReportable found f = record {
  name = told (codes "component_failure") (omega arith) refl refl;
  acceleration = (omega arith, omega arith, omega arith);
  gyroscope = (omega arith, omega arith, omega arith);
  pressure = omega arith;
  temperature = omega arith;
  sector_count = omega arith;
  test_sector = omega arith;
  checksum = omega arith;
  failure_texts = λ _. (f.stage, f.reason);
  failure_code = f.code;
}

module _ {H : Type 0} (driver : BarometerDriver H) (reports : Reports driver) where
  process_state-IsReportable :
      (state : BarometerState) (now : ℕ) (t : BarometerTest) (h : H)
      → let (result, t', h') = bmp388_process_state driver state now t h in
        result ≡ ProcessResult.event → IsReportable t'.latest_event
  unfolding bmp388_process_state report_driver_failure memchr
  process_state-IsReportable initializing now t h = elim (Bool-cases (driver.initialize h).0) [
    | inl e ↦ rw e (λ _.
        message-IsReportable (codes "barometer_stabilizing")
          (told (codes "barometer_stabilizing") (omega arith) refl refl))
    | inr e ↦ rw e (λ _.
        driver_failure-IsReportable _ (
          subst (λ b. Started b (driver.last_failure (driver.initialize h).1)) e
            (reports.starts h)))
  ]
  process_state-IsReportable settling now t h = elim (Bool-cases (before now t.next_sample_at)) [
    | inl e ↦ rw e (λ r. ground (arith, r))
    | inr e ↦ rw e (λ _.
        message-IsReportable (codes "barometer_ready")
          (told (codes "barometer_ready") (omega arith) refl refl))
  ]
  process_state-IsReportable failed now t h = λ r. ground (arith, r)
  process_state-IsReportable sampling now t h = elim (Bool-cases (before now t.next_sample_at)) [
    | inl e ↦ rw e (λ r. ground (arith, r))
    | inr e ↦ rw e (elim (Option-cases (driver.read_sample h).0) [
      | inl n ↦ rw n (λ _. driver_failure-IsReportable _ (
          subst (λ b. Sampled b (driver.last_failure (driver.read_sample h).1)) n
            (reports.samples h)))
      | inr (s, n) ↦
          let ranges =
            subst (λ b. Sampled b (driver.last_failure (driver.read_sample h).1)) n
              (reports.samples h) in
          rw n (λ _. sample_event-IsReportable s ranges.0 ranges.1)
    ])
  ]

  pub bmp388_test_process-IsReportable :
      (now : ℕ) (t : BarometerTest) (h : H)
      → let (result, t', h') = bmp388_test_process driver now t h in
        result ≡ ProcessResult.event → IsReportable t'.latest_event
  unfolding bmp388_test_process
  bmp388_test_process-IsReportable now t h = process_state-IsReportable t.state now t h
