-- ===== src/SdCard/Driver.antt =====
-- firmware/manufacturing_test/drivers/sd_card/sd_card_driver.c: the statics of the file, and its
-- functions as actions that succeed with a value, return false, or run out of the fuel of a loop.
-- The two sector buffers are values: each function that reads one fills it first.
pub mod Exchange
pub mod Start
pub mod Blocks
pub mod Ensures
pub mod Bus
pub mod Calls
pub mod Transfers
pub mod Waits
pub mod Sectors
pub mod Operations
pub mod Heard
pub mod Received
pub mod Steps
pub mod Identify
pub mod Initialize
pub mod Promise
pub mod ReadBack
pub mod Duration
use flight_computer_test.Base.{ℕ, Bool, true, false, Option, none, some, ◌∷◌, [], Bytes}
use flight_computer_test.Base.Int.{ℤ}
use flight_computer_test.Spi.{
  SpiDevice, spi_device_initialize, spi_device_select, spi_device_deselect, spi_device_transfer,
  spi_device_set_prescaler,
}
use flight_computer_test.SdCard.Component.{SdCardInformation, SdCardFailure}

-- The statics, the hardware `H`, and the structure that the caller's pointer names during a call.
pub record SdCardDriver (H : Type 0) : Type 0 where
  pub device : Option (SpiDevice H)
  pub high_capacity : Bool
  pub write_checksum : ℕ
  pub verify_checksum : ℕ
  pub active_stage : Option Bytes
  pub last_failure : SdCardFailure
  pub information : SdCardInformation
  pub hardware : H

pub data Outcome (A : Type 0) : Type 0 where
  ok : A → Outcome A
  failed : Outcome A
  out_of_fuel : Outcome A

abbrev pub Action : Type 0 → Type 0 → Type 0
Action H A = SdCardDriver H → Outcome A × SdCardDriver H

module _ {H A : Type 0} where
  unfoldable pub pure : A → Action H A
  pure a s = (ok a, s)

  unfoldable pub gets : (SdCardDriver H → A) → Action H A
  gets f s = (ok (f s), s)

  -- `return false` without a new failure
  unfoldable pub give_up : Action H A
  give_up s = (failed, s)

  unfoldable pub stop : Action H A
  stop s = (out_of_fuel, s)

unfoldable pub modify : {H : Type 0} → (SdCardDriver H → SdCardDriver H) → Action H (Unit {0})
modify f s = (ok tt, f s)

-- The rest of an action, after a result and the state with it.
abbrev pub continue :
    {H A B : Type 0} → Outcome A × SdCardDriver H → (A → Action H B) → Outcome B × SdCardDriver H
continue (ok a, s) f = f a s
continue (failed, s) f = (failed, s)
continue (out_of_fuel, s) f = (out_of_fuel, s)

infixl 5 ◌>>=◌ ◌>>◌
unfoldable pub ◌>>=◌ : {H A B : Type 0} → Action H A → (A → Action H B) → Action H B
(m >>= f) s = continue (m s) f

abbrev pub ◌>>◌ : {H B : Type 0} → Action H (Unit {0}) → Action H B → Action H B
m >> k = m >>= λ _. k

-- An early return: go on if a test holds, or with what is there, else run another action.
unfoldable pub require : {H : Type 0} → Bool → Action H (Unit {0}) → Action H (Unit {0})
unfolding pure
require true otherwise = pure tt
require false otherwise = otherwise

unfoldable pub require_some : {H A : Type 0} → Option A → Action H A → Action H A
unfolding pure
require_some none otherwise = otherwise
require_some (some a) otherwise = pure a

module _ {H : Type 0} where
  -- begin_stage
  unfoldable pub begin_stage : Bytes → Action H (Unit {0})
  begin_stage stage s = (ok tt, record s { active_stage = some stage })

  -- fail and fail_if_unset, for any result that is not there
  unfoldable pub fail : {A : Type 0} → Bytes → ℤ → Action H A
  fail reason code s = (
    failed,
    record s {
      last_failure = record { stage = s.active_stage; reason = some reason; code = code };
    },
  )

  unfoldable pub fail_if_unset : {A : Type 0} → Bytes → ℤ → Action H A
  unfolding fail
  fail_if_unset reason code s = elim s.last_failure.reason [
    | none ↦ fail reason code s
    | some _ ↦ (failed, s)
  ]

  -- The calls on the SPI device.
  abbrev on_device :
      {A : Type 0}
      → (Option (SpiDevice H) → H → A × H)
      → SdCardDriver H
      → Outcome A × SdCardDriver H
  on_device f s = let (a, h) = f s.device s.hardware in (ok a, record s { hardware = h })

  unfoldable pub device_initialize : Action H Bool
  device_initialize = on_device spi_device_initialize

  unfoldable pub device_select : Action H Bool
  device_select = on_device spi_device_select

  unfoldable pub device_deselect : Action H (Unit {0})
  device_deselect = on_device (λ d h. (tt, spi_device_deselect d h))

  unfoldable pub device_transfer : Bytes → Action H (Option Bytes)
  device_transfer tx = on_device (λ d. spi_device_transfer d tx)

  unfoldable pub device_set_prescaler : ℕ → Action H Bool
  device_set_prescaler prescaler = on_device (λ d. spi_device_set_prescaler d prescaler)
