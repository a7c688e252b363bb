-- ===== src/Sensors/Barometer/Driver/Fulfils.antt =====
-- bmp388_driver.c does what the component test relies on (Reports).
use flight_computer_test.Base.{
  ℕ, ◌^◌, ◌<◌, ◌≡◌, refl, Bool, true, false, not, some, Bytes, leb, memchr, arith, if◌then◌else◌,
  Bool-cases, inl, inr,
}
use flight_computer_test.Base.Int.{pos}
use flight_computer_test.Base.Text.{codes}
use flight_computer_test.Registry.{ProcessResult}
use flight_computer_test.Response.Events.{Tells, IsReportable}
use flight_computer_test.SdCard.Driver.Blocks.{to_int32}
use flight_computer_test.Sensors.Barometer.{BarometerTest, bmp388_test_process}
use flight_computer_test.Sensors.Barometer.Driver.{
  BoschResult, BoschData, BoschLibrary, BarometerI2c, BarometerUnit, bmp388_i2c_address,
  failure_reason, is_success, fits_int32, driver_failed, start_normal_mode, configure_sampling,
  initialize_chip, bmp388_driver_initialize, convert_sample, bmp388_driver_read_sample,
  bmp388_driver, bosch_bus, selected_settings, sampling_settings, no_failure, barometer_failure,
}
use flight_computer_test.Sensors.Barometer.Driver.Reports.{
  Filed, Started, Sampled, Reports, IsInt8, IsInt8-IsInt32, to_int32-IsInt32, fits_int32-IsInt32,
  told, failure_reason-Tells, filed, bmp388_test_process-IsReportable,
}

-- The results of the library are numbers of type int8_t, the HAL's errors of type uint32_t.
pub record IsTyped {H D : Type 0} (i2c : BarometerI2c H) (library : BoschLibrary H D) : Type 0 where
  pub code : (result : BoschResult) → IsInt8 (library.code result)
  pub hal_error : (address : ℕ) (h : H) → (i2c.probe address h).1 < 2 ^ 32

module _ {H D : Type 0} (i2c : BarometerI2c H) (library : BoschLibrary H D) where
  -- The driver is ready exactly when the initialization succeeds, and a failure is filled in.
  abbrev pub Begun : Bool × BarometerUnit H D → Type 0
  Begun (started, u) = (u.ready ≡ started) × Started started u.last_failure

  module _ (typed : IsTyped i2c library) where
    driver_failed-Begun :
        (stage : Bytes) (result : BoschResult) (u : BarometerUnit H D)
        → Tells (some stage)
        → u.ready ≡ false
        → Begun (driver_failed i2c library stage result u)
    unfolding driver_failed
    driver_failed-Begun stage result u t r = (
      r,
      filed stage (failure_reason result) (library.code result) t (failure_reason-Tells result)
          (IsInt8-IsInt32 _ (typed.code result)),
    )

    -- What each call of the library is followed by: its failure, or the rest.
    checked-Begun :
        (stage : Bytes) (result : BoschResult) (called : BarometerUnit H D)
        (rest : Bool × BarometerUnit H D)
        → Tells (some stage)
        → called.ready ≡ false
        → Begun rest
        → Begun (
            if not (is_success result) then driver_failed i2c library stage result called else rest)
    checked-Begun stage result called rest t r b = elim (Bool-cases (is_success result)) [
      | inl e ↦ rw e b
      | inr e ↦ rw e (driver_failed-Begun stage result called t r)
    ]

    start_normal_mode-Begun :
        (u : BarometerUnit H D) → u.ready ≡ false → Begun (start_normal_mode i2c library u)
    unfolding start_normal_mode memchr
    start_normal_mode-Begun u r =
        let settings = record (sampling_settings i2c library) { op_mode = library.mode_normal } in
        let (result, d, h) = library.set_op_mode (bosch_bus i2c) settings u.device u.hardware in
        let called = record u { device = d; hardware = h } in
        checked-Begun (codes "normal_mode") result called (true, record called { ready = true })
          (told (codes "normal_mode") (omega arith) refl refl) r (refl, tt)

    configure_sampling-Begun :
        (u : BarometerUnit H D) → u.ready ≡ false → Begun (configure_sampling i2c library u)
    unfolding configure_sampling memchr
    configure_sampling-Begun u r =
        let (result, d, h) =
          library.set_sensor_settings (bosch_bus i2c) (selected_settings i2c library)
            (sampling_settings i2c library) u.device u.hardware in
        let called = record u { device = d; hardware = h } in
        checked-Begun (codes "sampling_configuration") result called
          (start_normal_mode i2c library called)
          (told (codes "sampling_configuration") (omega arith) refl refl) r
          (start_normal_mode-Begun called r)

    initialize_chip-Begun :
        (u : BarometerUnit H D) → u.ready ≡ false → Begun (initialize_chip i2c library u)
    unfolding initialize_chip memchr
    initialize_chip-Begun u r =
        let (result, d, h) = library.init (bosch_bus i2c) u.device u.hardware in
        let called = record u { device = d; hardware = h } in
        checked-Begun (codes "chip_id_and_calibration") result called
          (configure_sampling i2c library called)
          (told (codes "chip_id_and_calibration") (omega arith) refl refl) r
          (configure_sampling-Begun called r)

    pub bmp388_driver_initialize-Begun :
        (u : BarometerUnit H D) → Begun (bmp388_driver_initialize i2c library u)
    unfolding bmp388_driver_initialize memchr
    bmp388_driver_initialize-Begun u =
        let (found, hal_error, h) = i2c.probe bmp388_i2c_address u.hardware in
        let reset : BarometerUnit H D = record {
          device = library.blank;
          ready = false;
          last_failure = no_failure;
          hardware = h;
        } in
        elim (Bool-cases found) [
          | inl e ↦ rw e (initialize_chip-Begun reset refl)
          | inr e ↦ rw e (
            refl,
            filed (codes "i2c_address_probe") (codes "no_acknowledgement_at_0x76")
                (to_int32 hal_error) (told (codes "i2c_address_probe") (omega arith) refl refl)
                (told (codes "no_acknowledgement_at_0x76") (omega arith) refl refl)
                (to_int32-IsInt32 _ (typed.hal_error bmp388_i2c_address u.hardware)),
          )
        ]

    out_of_range-Filed : Filed (
        barometer_failure
          (codes "sample_conversion")
          (codes "compensated_value_out_of_range")
          (pos 0))
    unfolding memchr
    out_of_range-Filed =
        filed (codes "sample_conversion") (codes "compensated_value_out_of_range") (pos 0)
          (told (codes "sample_conversion") (omega arith) refl refl)
          (told (codes "compensated_value_out_of_range") (omega arith) refl refl) (omega arith)

    convert_sample-Sampled :
        (result : BoschResult) (reading : BoschData) (u : BarometerUnit H D)
        → let (sample, u') = convert_sample i2c library result reading u in
          Sampled sample u'.last_failure
    unfolding convert_sample driver_failed memchr
    convert_sample-Sampled result reading u = elim (Bool-cases (is_success result)) [
      | inr e ↦ rw e (
          filed (codes "sample_read") (failure_reason result) (library.code result)
            (told (codes "sample_read") (omega arith) refl refl) (failure_reason-Tells result)
            (IsInt8-IsInt32 _ (typed.code result)))
      | inl e ↦ elim (Bool-cases (leb (2 ^ 31) reading.pressure)) [
        | inl p ↦ rw (e, p) out_of_range-Filed
        | inr p ↦ elim (Bool-cases (fits_int32 reading.temperature)) [
          | inr t ↦ rw (e, p, t) out_of_range-Filed
          | inl t ↦ rw (e, p, t) (ground (arith, p), fits_int32-IsInt32 _ t)
        ]
      ]
    ]

    bmp388_driver_read_sample-Sampled :
        (u : BarometerUnit H D)
        → let (sample, u') = bmp388_driver_read_sample i2c library u in
          Sampled sample u'.last_failure
    unfolding bmp388_driver_read_sample memchr
    bmp388_driver_read_sample-Sampled u =
        let (result, reading, d, h) =
          library.get_sensor_data (bosch_bus i2c) library.press_temp u.device u.hardware in
        elim (Bool-cases u.ready) [
          | inl e ↦ rw e (
              convert_sample-Sampled result reading
                (record u { device = d; ready = true; hardware = h }))
          | inr e ↦ rw e (
              filed (codes "sample_read") (codes "driver_not_ready_or_null_destination") (pos 0)
                (told (codes "sample_read") (omega arith) refl refl)
                (told (codes "driver_not_ready_or_null_destination") (omega arith) refl refl)
                (omega arith))
        ]

    pub bmp388_driver-Reports : Reports (bmp388_driver i2c library)
    unfolding bmp388_driver
    bmp388_driver-Reports = record {
      starts = λ u. (bmp388_driver_initialize-Begun u).1;
      samples = bmp388_driver_read_sample-Sampled;
    }

    -- Each event of the barometer test on bmp388_driver.c can be written as a response.
    pub bmp388_events-IsReportable :
        (now : ℕ) (t : BarometerTest) (u : BarometerUnit H D)
        → let (result, t', u') = bmp388_test_process (bmp388_driver i2c library) now t u in
          result ≡ ProcessResult.event → IsReportable t'.latest_event
    bmp388_events-IsReportable now t u =
        bmp388_test_process-IsReportable (bmp388_driver i2c library) bmp388_driver-Reports now t u
