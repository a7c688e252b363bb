-- ===== src/Spi.antt =====
-- firmware/manufacturing_test/hardware_abstraction/spi_device.c and .h: a device on the SPI bus as a
-- table of functions. `H` is what the device's context and the hardware behind it keep.
use flight_computer_test.Base.{ℕ, Bool, false, Option, none, some, Bytes}

-- spi_device_operations_t, a function that may be NULL as an option. A transfer answers the received
-- bytes if it succeeds.
pub record SpiOperations (H : Type 0) : Type 0 where
  pub initialize : Option (H → Bool × H)
  pub select : Option (H → Bool × H)
  pub deselect : Option (H → H)
  pub transfer : Option (Bytes → H → Option Bytes × H)
  pub set_prescaler : Option (ℕ → H → Bool × H)

-- struct spi_device
pub record SpiDevice (H : Type 0) : Type 0 where
  pub operations : Option (SpiOperations H)

-- The operations that a pointer to a device leads to, if it does.
abbrev pub operations_of : {H : Type 0} → Option (SpiDevice H) → Option (SpiOperations H)
operations_of none = none
operations_of (some device) = device.operations

-- A function that may be NULL, and `false` if it is.
abbrev call : {H : Type 0} → Option (H → Bool × H) → H → Bool × H
call none h = (false, h)
call (some f) h = f h

module _ {H : Type 0} (device : Option (SpiDevice H)) where
  unfoldable pub spi_device_initialize : H → Bool × H
  spi_device_initialize h = elim (operations_of device) [
    | none ↦ (false, h)
    | some ops ↦ call ops.initialize h
  ]

  unfoldable pub spi_device_select : H → Bool × H
  spi_device_select h = elim (operations_of device) [
    | none ↦ (false, h)
    | some ops ↦ call ops.select h
  ]

  unfoldable pub spi_device_deselect : H → H
  spi_device_deselect h = elim (operations_of device) [
    | none ↦ h
    | some ops ↦ elim ops.deselect [ none ↦ h | some f ↦ f h ]
  ]

  unfoldable pub spi_device_transfer : Bytes → H → Option Bytes × H
  spi_device_transfer tx h = elim (operations_of device) [
    | none ↦ (none, h)
    | some ops ↦ elim ops.transfer [ none ↦ (none, h) | some f ↦ f tx h ]
  ]

  unfoldable pub spi_device_set_prescaler : ℕ → H → Bool × H
  spi_device_set_prescaler prescaler h = elim (operations_of device) [
    | none ↦ (false, h)
    | some ops ↦ elim ops.set_prescaler [ none ↦ (false, h) | some f ↦ f prescaler h ]
  ]
