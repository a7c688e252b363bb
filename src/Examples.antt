-- ===== src/Examples.antt =====
-- The theorems at concrete inputs.
mod Wire
mod Protocol
mod Session
mod Buses
mod Card
mod Sensors
mod Drive
