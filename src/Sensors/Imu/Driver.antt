-- ===== src/Sensors/Imu/Driver.antt =====
-- firmware/manufacturing_test/drivers/bmi270/bmi270_driver.c on Bosch's library for the sensor, which is
-- a submodule, and on the SPI device of the IMU.
pub mod Access
use Prim.Native.Nat.{bit_and, bit_or}
use flight_computer_test.Base.{
  ℕ, ◌+◌, ◌-◌, ◌%◌, ◌^◌, Bool, true, false, not, ◌||◌, Option, none, some, List, [], ◌∷◌, ◌++◌,
  Bytes, ltb, ◌==◌, length, take, drop, replicate, if◌then◌else◌,
}
use flight_computer_test.Base.Int.{ℤ}
use flight_computer_test.Spi.{
  SpiDevice, spi_device_select, spi_device_deselect, spi_device_transfer,
}
use flight_computer_test.Sensors.Imu.{ImuSample, ImuDriver}

-- The results of the library, by what the source tells apart; out_of_bounds stands for a copy that goes
-- outside of the buffers.
pub data ImuResult : Type 0 where
  ok com_fail out_of_bounds : ImuResult
  other : ℕ → ImuResult

-- The functions that the library calls: read takes a register, whether there is a destination, and a
-- length.
pub record ImuBus (H : Type 0) : Type 0 where
  pub read : ℕ → Bool → ℕ → H → ImuResult × Bytes × H
  pub write : ℕ → Option Bytes → H → ImuResult × H
  pub delay_us : ℕ → H → H

-- The fields of bmi2_sens_config that the source sets.
pub record ImuConfiguration : Type 0 where
  pub sensor : ℕ
  pub odr : ℕ
  pub range : ℕ
  pub bwp : ℕ
  pub noise_perf : ℕ
  pub filter_perf : ℕ

-- The library: its constants, its device `D`, and its functions with the bus that the device points to.
-- `attached` is the device after the assignments that bmi270_driver_initialize makes; a sample has the
-- fields of the library's data that the source copies.
pub record ImuLibrary (H D : Type 0) : Type 0 where
  pub accel : ℕ
  pub gyro : ℕ
  pub spi_rd_mask : ℕ
  pub acc_odr_100hz : ℕ
  pub acc_range_2g : ℕ
  pub acc_normal_avg4 : ℕ
  pub gyr_odr_100hz : ℕ
  pub gyr_range_2000 : ℕ
  pub gyr_normal_mode : ℕ
  pub perf_opt_mode : ℕ
  pub power_opt_mode : ℕ
  pub attached : D
  pub init : ImuBus H → D → H → ImuResult × D × H
  pub set_sensor_config : ImuBus H → List ImuConfiguration → D → H → ImuResult × D × H
  pub sensor_enable : ImuBus H → List ℕ → D → H → ImuResult × D × H
  pub get_sensor_data : ImuBus H → D → H → ImuResult × ImuSample × D × H

-- The statics of the file, and the hardware.
pub record ImuUnit (H D : Type 0) : Type 0 where
  pub device : D
  pub ready : Bool
  pub hardware : H

-- BMI270_SPI_BUFFER_CAPACITY
abbrev pub bmi270_spi_buffer_capacity : ℕ
bmi270_spi_buffer_capacity = 64

abbrev pub is_ok : ImuResult → Bool
is_ok ok = true
is_ok com_fail = false
is_ok out_of_bounds = false
is_ok (other n) = false

-- length + 1U
abbrev pub transfer_length : ℕ → ℕ
transfer_length count = (count + 1) % 2 ^ 32

-- memcpy takes `count` bytes behind the first that was received.
abbrev pub read_result : {H : Type 0} → ℕ → Option Bytes × H → ImuResult × Bytes × H
read_result count (none, h) = (com_fail, [], h)
read_result count (some rx, h) =
    if ltb count bmi270_spi_buffer_capacity
    then (ok, take count (drop 1 rx), h)
    else (out_of_bounds, [], h)

abbrev pub write_result : {H : Type 0} → Option Bytes × H → ImuResult × H
write_result (none, h) = (com_fail, h)
write_result (some rx, h) = (ok, h)

module _ {H : Type 0} (device : Option (SpiDevice H)) where
  -- The select, transfer and deselect that spi_read and spi_write have in common.
  unfoldable pub bracketed_transfer : Bytes → H → Option Bytes × H
  bracketed_transfer tx h =
      let (chosen, selected) = spi_device_select device h in
      let (rx, exchanged) = spi_device_transfer device tx selected in
      if not chosen
      then (none, spi_device_deselect device selected)
      else (rx, spi_device_deselect device exchanged)

module _ {H : Type 0} (device : Option (SpiDevice H)) (mask : ℕ) where
  unfoldable pub spi_read : ℕ → Bool → ℕ → H → ImuResult × Bytes × H
  unfolding bracketed_transfer
  spi_read register has_data count h =
      let size = transfer_length count in
      let tx = bit_or register mask ∷ replicate (bmi270_spi_buffer_capacity - 1) 0 in
      if not has_data || ltb bmi270_spi_buffer_capacity size
      then (com_fail, [], h)
      else read_result count (bracketed_transfer device (take size tx) h)

  unfoldable pub spi_write : ℕ → Option Bytes → H → ImuResult × H
  unfolding bracketed_transfer
  spi_write register none h = (com_fail, h)
  spi_write register (some bytes) h =
      let size = transfer_length (length bytes) in
      let tx = bit_and register (255 - mask) ∷ bytes in
      if ltb bmi270_spi_buffer_capacity size
      then (com_fail, h)
      else if not (ltb (length bytes) bmi270_spi_buffer_capacity)
      then (out_of_bounds, h)
      else write_result (bracketed_transfer device (take size tx) h)

module _ {H D : Type 0} (library : ImuLibrary H D) (device : Option (SpiDevice H))
    (delay : ℕ → H → H) where
  unfoldable pub imu_bus : ImuBus H
  unfolding spi_read spi_write
  imu_bus = record {
    read = spi_read device library.spi_rd_mask;
    write = spi_write device library.spi_rd_mask;
    delay_us = delay;
  }

  abbrev pub accelerometer : ImuConfiguration
  accelerometer = record {
    sensor = library.accel;
    odr = library.acc_odr_100hz;
    range = library.acc_range_2g;
    bwp = library.acc_normal_avg4;
    noise_perf = 0;
    filter_perf = library.perf_opt_mode;
  }

  abbrev pub gyroscope : ImuConfiguration
  gyroscope = record {
    sensor = library.gyro;
    odr = library.gyr_odr_100hz;
    range = library.gyr_range_2000;
    bwp = library.gyr_normal_mode;
    noise_perf = library.power_opt_mode;
    filter_perf = library.perf_opt_mode;
  }

  -- bmi270_driver_initialize, a call of the library at a time.
  unfoldable pub enable_sensors : ImuUnit H D → Bool × ImuUnit H D
  unfolding imu_bus
  enable_sensors u =
      let sensors = library.accel ∷ library.gyro ∷ [] in
      let (result, d, h) = library.sensor_enable imu_bus sensors u.device u.hardware in
      let called = record u { device = d; hardware = h } in
      if not (is_ok result) then (false, called) else (true, record called { ready = true })

  unfoldable pub configure_sensors : ImuUnit H D → Bool × ImuUnit H D
  unfolding imu_bus enable_sensors
  configure_sensors u =
      let sensors = accelerometer ∷ gyroscope ∷ [] in
      let (result, d, h) = library.set_sensor_config imu_bus sensors u.device u.hardware in
      let called = record u { device = d; hardware = h } in
      if not (is_ok result) then (false, called) else enable_sensors called

  unfoldable pub bmi270_driver_initialize : ImuUnit H D → Bool × ImuUnit H D
  unfolding imu_bus configure_sensors
  bmi270_driver_initialize u =
      let (result, d, h) = library.init imu_bus library.attached u.hardware in
      let called : ImuUnit H D = record { device = d; ready = false; hardware = h } in
      if not (is_ok result) then (false, called) else configure_sensors called

  unfoldable pub bmi270_driver_read_sample : ImuUnit H D → Option ImuSample × ImuUnit H D
  unfolding imu_bus
  bmi270_driver_read_sample u =
      let (result, sample, d, h) = library.get_sensor_data imu_bus u.device u.hardware in
      let called = record u { device = d; hardware = h } in
      if not u.ready
      then (none, u)
      else if not (is_ok result)
      then (none, called)
      else (some sample, called)

  unfoldable pub bmi270_driver_shutdown : ImuUnit H D → ImuUnit H D
  bmi270_driver_shutdown u = record u { ready = false }

  -- The file as the driver of the component test.
  unfoldable pub bmi270_driver : ImuDriver (ImuUnit H D)
  unfolding bmi270_driver_initialize bmi270_driver_read_sample bmi270_driver_shutdown
  bmi270_driver = record {
    initialize = bmi270_driver_initialize;
    read_sample = bmi270_driver_read_sample;
    shutdown = bmi270_driver_shutdown;
  }
