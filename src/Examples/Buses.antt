-- ===== src/Examples/Buses.antt =====
-- The theorems on the sensors' drivers at small libraries and buses.
use flight_computer_test.Base.{ℕ, ◌≢◌, ◌+◌, ◌≡◌, refl, true, false, some, [], ◌∷◌, arith}
use flight_computer_test.Base.Int.{ℤ, pos, negsuc}
use flight_computer_test.Registry.{ProcessResult}
use flight_computer_test.Response.Events.{IsReportable}
use flight_computer_test.SdCard.Component.{blank_event}
use flight_computer_test.SdCard.Driver.Bus.{Chip, recorded}
use flight_computer_test.Sensors.Barometer.{
  BarometerState, BarometerTest, bmp388_process_state, report_driver_failure, bmp388_test_process,
}
use flight_computer_test.Sensors.Barometer.Driver.{
  BoschResult, BoschLibrary, BarometerI2c, BarometerUnit, success, comm_fail, dev_not_found,
  invalid_odr_osr_settings, cmd_exec_failed, configuration_err, other, no_failure, bmp388_driver,
  bmp388_driver_initialize, initialize_chip, driver_failed,
}
use flight_computer_test.Sensors.Barometer.Driver.Fulfils.{IsTyped, bmp388_events-IsReportable}
use flight_computer_test.Sensors.Barometer.Driver.Reports.{IsInt8}
use flight_computer_test.Sensors.Imu.Driver.{out_of_bounds, spi_read, spi_write}
use flight_computer_test.Sensors.Imu.Driver.Access.{OneAccess, register_access-OneAccess}

-- A bus on which the sensor answers.
abbrev small_i2c : BarometerI2c ℕ
small_i2c = record {
  probe = λ address h. (true, 0, h + 1);
  read = λ address register count h. (true, 7 ∷ [], h + 1);
  write = λ address register bytes h. (true, h + 1);
  delay = λ period h. h + period;
}

abbrev result_code : BoschResult → ℤ
result_code success = pos 0
result_code _ = negsuc 1

-- A library whose initialization fails.
abbrev small_library : BoschLibrary ℕ ℕ
small_library = record {
  sel_press_en = 2;
  sel_temp_en = 4;
  sel_press_os = 16;
  sel_temp_os = 32;
  sel_odr = 128;
  enable = 1;
  oversampling_4x = 2;
  no_oversampling = 0;
  odr_25_hz = 3;
  mode_normal = 3;
  mode_sleep = 0;
  press_temp = 3;
  blank = 0;
  code = result_code;
  init = λ bus d h. (comm_fail, d, h);
  set_sensor_settings = λ bus selected settings d h. (success, d, h);
  set_op_mode = λ bus settings d h. (success, d, h);
  get_sensor_data =
      λ bus which d h. (success, record { pressure = 10132500; temperature = pos 2100 }, d, h);
}

result_code-IsInt8 : (result : BoschResult) → IsInt8 (result_code result)
result_code-IsInt8 success = omega arith
result_code-IsInt8 comm_fail = omega arith
result_code-IsInt8 dev_not_found = omega arith
result_code-IsInt8 invalid_odr_osr_settings = omega arith
result_code-IsInt8 cmd_exec_failed = omega arith
result_code-IsInt8 configuration_err = omega arith
result_code-IsInt8 (other n) = omega arith

small-IsTyped : IsTyped small_i2c small_library
small-IsTyped = record { code = result_code-IsInt8; hal_error = λ address h. omega arith }

abbrev fresh_unit : BarometerUnit ℕ ℕ
fresh_unit = record { device = 0; ready = false; last_failure = no_failure; hardware = 0 }

abbrev fresh_test : BarometerTest
fresh_test = record {
  state = BarometerState.initializing;
  next_sample_at = 0;
  latest_event = blank_event;
}

chip_missing :
    (bmp388_test_process (bmp388_driver small_i2c small_library) 5 fresh_test fresh_unit).0
    ≡ ProcessResult.event
unfolding bmp388_test_process bmp388_process_state report_driver_failure bmp388_driver
    bmp388_driver_initialize initialize_chip driver_failed
chip_missing = refl

bmp388_events-IsReportable_example :
    IsReportable
      (bmp388_test_process
        (bmp388_driver small_i2c small_library)
        5
        fresh_test
        fresh_unit).1.latest_event
bmp388_events-IsReportable_example =
    bmp388_events-IsReportable small_i2c small_library small-IsTyped 5 fresh_test fresh_unit
      chip_missing

-- An IMU that answers with ones.
abbrev small_imu : Chip ℕ
small_imu = record {
  initialize = λ k. (true, k);
  select = λ k. (true, k);
  deselect = λ k. k;
  transfer = λ tx k. (some (1 ∷ 1 ∷ 1 ∷ []), k + 1);
  set_prescaler = λ p k. (true, k);
}

register_access-OneAccess_example :
    let (read, bytes, h) = spi_read (some (recorded small_imu)) 128 130 true 2 ([], 0) in
    let (write, h') = spi_write (some (recorded small_imu)) 128 130 (some (5 ∷ [])) ([], 0) in
    OneAccess 130 [] h.0 × OneAccess 2 [] h'.0 × (read ≢ out_of_bounds) × (write ≢ out_of_bounds)
register_access-OneAccess_example =
    register_access-OneAccess small_imu 128 130 2 true (some (5 ∷ [])) [] 0 (omega arith)
      (omega arith)
