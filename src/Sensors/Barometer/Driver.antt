-- ===== src/Sensors/Barometer/Driver.antt =====
-- firmware/manufacturing_test/drivers/bmp388/bmp388_driver.c on Bosch's library for the sensor, which is
-- a submodule, and on the board's I2C bus.
pub mod Reports
pub mod Fulfils
use Prim.Native.Nat.{bit_or}
use flight_computer_test.Base.{
  ℕ, ◌+◌, ◌*◌, ◌/◌, ◌%◌, ◌^◌, Bool, true, false, not, ◌&&◌, ◌||◌, Option, none, some, [], Bytes,
  ltb, leb, length, if◌then◌else◌,
}
use flight_computer_test.Base.Int.{ℤ, pos, negsuc}
use flight_computer_test.Base.Text.{codes}
use flight_computer_test.SdCard.Driver.Blocks.{to_int32}
use flight_computer_test.Sensors.Barometer.{BarometerSample, BarometerFailure, BarometerDriver}

-- The library's results that the source names, and the others.
pub data BoschResult : Type 0 where
  success comm_fail dev_not_found invalid_odr_osr_settings cmd_exec_failed : BoschResult
  configuration_err : BoschResult
  other : ℕ → BoschResult

-- The functions that the library calls: read takes a register, whether there is a destination, and a
-- length.
pub record BoschBus (H : Type 0) : Type 0 where
  pub read : ℕ → Bool → ℕ → H → BoschResult × Bytes × H
  pub write : ℕ → Option Bytes → H → BoschResult × H
  pub delay_us : ℕ → H → H

-- The fields of bmp3_settings that the source sets.
pub record BoschSettings : Type 0 where
  pub press_en : ℕ
  pub temp_en : ℕ
  pub press_os : ℕ
  pub temp_os : ℕ
  pub odr : ℕ
  pub op_mode : ℕ

-- bmp3_data with integer compensation.
pub record BoschData : Type 0 where
  pub pressure : ℕ
  pub temperature : ℤ

-- The library: its constants, its device `D`, and its functions with the bus that the device points to.
pub record BoschLibrary (H D : Type 0) : Type 0 where
  pub sel_press_en : ℕ
  pub sel_temp_en : ℕ
  pub sel_press_os : ℕ
  pub sel_temp_os : ℕ
  pub sel_odr : ℕ
  pub enable : ℕ
  pub oversampling_4x : ℕ
  pub no_oversampling : ℕ
  pub odr_25_hz : ℕ
  pub mode_normal : ℕ
  pub mode_sleep : ℕ
  pub press_temp : ℕ
  pub blank : D
  pub code : BoschResult → ℤ
  pub init : BoschBus H → D → H → BoschResult × D × H
  pub set_sensor_settings : BoschBus H → ℕ → BoschSettings → D → H → BoschResult × D × H
  pub set_op_mode : BoschBus H → BoschSettings → D → H → BoschResult × D × H
  pub get_sensor_data : BoschBus H → ℕ → D → H → BoschResult × BoschData × D × H

-- The board: the I2C bus of the barometer, whose probe stores the error of the HAL, and HAL_Delay.
pub record BarometerI2c (H : Type 0) : Type 0 where
  pub probe : ℕ → H → Bool × ℕ × H
  pub read : ℕ → ℕ → ℕ → H → Bool × Bytes × H
  pub write : ℕ → ℕ → Bytes → H → Bool × H
  pub delay : ℕ → H → H

-- The statics of the file, and the hardware.
pub record BarometerUnit (H D : Type 0) : Type 0 where
  pub device : D
  pub ready : Bool
  pub last_failure : BarometerFailure
  pub hardware : H

abbrev pub bmp388_i2c_address : ℕ
bmp388_i2c_address = 118

unfoldable pub failure_reason : BoschResult → Bytes
failure_reason comm_fail = codes "i2c_communication_failed"
failure_reason dev_not_found = codes "unexpected_or_missing_chip_id"
failure_reason invalid_odr_osr_settings = codes "invalid_sampling_settings"
failure_reason cmd_exec_failed = codes "sensor_command_failed"
failure_reason configuration_err = codes "sensor_configuration_error"
failure_reason success = codes "bosch_driver_error"
failure_reason (other n) = codes "bosch_driver_error"

abbrev pub no_failure : BarometerFailure
no_failure = record { stage = none; reason = none; code = pos 0 }

abbrev pub barometer_failure : Bytes → Bytes → ℤ → BarometerFailure
barometer_failure stage reason code = record {
  stage = some stage;
  reason = some reason;
  code = code;
}

abbrev pub is_success : BoschResult → Bool
is_success success = true
is_success comm_fail = false
is_success dev_not_found = false
is_success invalid_odr_osr_settings = false
is_success cmd_exec_failed = false
is_success configuration_err = false
is_success (other n) = false

-- The checks of a 64-bit integer against the range of int32_t.
abbrev pub fits_int32 : ℤ → Bool
fits_int32 (pos n) = ltb n (2 ^ 31)
fits_int32 (negsuc n) = ltb n (2 ^ 31)

abbrev pub blank_settings : BoschSettings
blank_settings = record {
  press_en = 0;
  temp_en = 0;
  press_os = 0;
  temp_os = 0;
  odr = 0;
  op_mode = 0;
}

module _ {H : Type 0} (i2c : BarometerI2c H) where
  unfoldable pub i2c_read : Option ℕ → ℕ → Bool → ℕ → H → BoschResult × Bytes × H
  i2c_read none register has_data count h = (comm_fail, [], h)
  i2c_read (some address) register has_data count h =
      let (done, reading, h') = i2c.read address register count h in
      if has_data && leb count 65535
      then (if done then success else comm_fail, reading, h')
      else (comm_fail, [], h)

  unfoldable pub i2c_write : Option ℕ → ℕ → Option Bytes → H → BoschResult × H
  i2c_write none register reading h = (comm_fail, h)
  i2c_write (some address) register none h = (comm_fail, h)
  i2c_write (some address) register (some reading) h =
      let (done, h') = i2c.write address register reading h in
      if leb (length reading) 65535
      then (if done then success else comm_fail, h')
      else (comm_fail, h)

  unfoldable pub delay_us : ℕ → H → H
  delay_us period h = i2c.delay ((period + 999) % 2 ^ 32 / 1000) h

  -- What bmp388_driver_initialize stores in the device: the three functions, and the address as their
  -- context.
  unfoldable pub bosch_bus : BoschBus H
  unfolding i2c_read i2c_write delay_us
  bosch_bus = record {
    read = i2c_read (some bmp388_i2c_address);
    write = i2c_write (some bmp388_i2c_address);
    delay_us = delay_us;
  }

  module _ {D : Type 0} (library : BoschLibrary H D) where
    unfoldable pub driver_failed :
        Bytes → BoschResult → BarometerUnit H D → Bool × BarometerUnit H D
    unfolding failure_reason
    driver_failed stage result u = (
      false,
      record u {
        last_failure = barometer_failure stage (failure_reason result) (library.code result);
      },
    )

    abbrev pub selected_settings : ℕ
    selected_settings =
        bit_or
          (bit_or (bit_or (bit_or library.sel_press_en library.sel_temp_en) library.sel_press_os)
            library.sel_temp_os)
          library.sel_odr

    abbrev pub sampling_settings : BoschSettings
    sampling_settings = record blank_settings {
      press_en = library.enable;
      temp_en = library.enable;
      press_os = library.oversampling_4x;
      temp_os = library.no_oversampling;
      odr = library.odr_25_hz;
    }

    -- The device and the hardware after a call of the library.
    abbrev pub after_call : D → H → BarometerUnit H D → BarometerUnit H D
    after_call d h u = record u { device = d; hardware = h }

    -- bmp388_driver_initialize, from its last call to its first.
    unfoldable pub start_normal_mode : BarometerUnit H D → Bool × BarometerUnit H D
    unfolding driver_failed bosch_bus
    start_normal_mode u =
        let settings = record sampling_settings { op_mode = library.mode_normal } in
        let (result, d, h) = library.set_op_mode bosch_bus settings u.device u.hardware in
        let called = after_call d h u in
        if not (is_success result)
        then driver_failed (codes "normal_mode") result called
        else (true, record called { ready = true })

    unfoldable pub configure_sampling : BarometerUnit H D → Bool × BarometerUnit H D
    unfolding driver_failed bosch_bus start_normal_mode
    configure_sampling u =
        let (result, d, h) =
          library.set_sensor_settings bosch_bus selected_settings sampling_settings u.device
            u.hardware in
        let called = after_call d h u in
        if not (is_success result)
        then driver_failed (codes "sampling_configuration") result called
        else start_normal_mode called

    unfoldable pub initialize_chip : BarometerUnit H D → Bool × BarometerUnit H D
    unfolding driver_failed bosch_bus configure_sampling
    initialize_chip u =
        let (result, d, h) = library.init bosch_bus u.device u.hardware in
        let called = after_call d h u in
        if not (is_success result)
        then driver_failed (codes "chip_id_and_calibration") result called
        else configure_sampling called

    unfoldable pub bmp388_driver_initialize : BarometerUnit H D → Bool × BarometerUnit H D
    unfolding initialize_chip
    bmp388_driver_initialize u =
        let (found, hal_error, h) = i2c.probe bmp388_i2c_address u.hardware in
        let reset : BarometerUnit H D = record {
          device = library.blank;
          ready = false;
          last_failure = no_failure;
          hardware = h;
        } in
        if not found
        then (
          false,
          record reset {
            last_failure =
                barometer_failure (codes "i2c_address_probe") (codes "no_acknowledgement_at_0x76")
                  (to_int32 hal_error);
          },
        )
        else initialize_chip reset

    -- bmp388_driver_read_sample after the call of the library.
    unfoldable pub convert_sample :
        BoschResult → BoschData → BarometerUnit H D → Option BarometerSample × BarometerUnit H D
    unfolding driver_failed
    convert_sample result reading u =
        if not (is_success result)
        then (none, (driver_failed (codes "sample_read") result u).1)
        else if leb (2 ^ 31) reading.pressure || not (fits_int32 reading.temperature)
        then (
          none,
          record u {
            last_failure =
                barometer_failure (codes "sample_conversion")
                  (codes "compensated_value_out_of_range") (pos 0);
          },
        )
        else (
          some (record {
            pressure_centi_pa = pos reading.pressure;
            temperature_centi_c = reading.temperature;
          }),
          u,
        )

    unfoldable pub bmp388_driver_read_sample :
        BarometerUnit H D → Option BarometerSample × BarometerUnit H D
    unfolding bosch_bus convert_sample
    bmp388_driver_read_sample u =
        let (result, reading, d, h) =
          library.get_sensor_data bosch_bus library.press_temp u.device u.hardware in
        if not u.ready
        then (
          none,
          record u {
            last_failure =
                barometer_failure (codes "sample_read")
                  (codes "driver_not_ready_or_null_destination") (pos 0);
          },
        )
        else convert_sample result reading (after_call d h u)

    unfoldable pub bmp388_driver_shutdown : BarometerUnit H D → BarometerUnit H D
    unfolding bosch_bus
    bmp388_driver_shutdown u =
        let settings = record blank_settings { op_mode = library.mode_sleep } in
        let (result, d, h) = library.set_op_mode bosch_bus settings u.device u.hardware in
        if u.ready then record (after_call d h u) { ready = false } else record u { ready = false }

    -- The file as the driver of the component test.
    unfoldable pub bmp388_driver : BarometerDriver (BarometerUnit H D)
    unfolding bmp388_driver_initialize bmp388_driver_read_sample bmp388_driver_shutdown
    bmp388_driver = record {
      initialize = bmp388_driver_initialize;
      read_sample = bmp388_driver_read_sample;
      shutdown = bmp388_driver_shutdown;
      last_failure = λ u. u.last_failure;
    }
