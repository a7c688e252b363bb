-- ===== src/Sensors.antt =====
-- The component tests of the two sensors: firmware/manufacturing_test/components/bmp388/bmp388_test.c
-- and firmware/manufacturing_test/components/bmi270/bmi270_test.c. `H` is the hardware behind their
-- drivers; `now` is what HAL_GetTick answers.
pub mod Clock
pub mod Barometer
pub mod Imu
