-- ===== src/SdCard/Driver/Bus.antt =====
-- firmware/manufacturing_test/drivers/sd_card/sd_card_driver.c: the bus to the card, written down. A
-- `Chip` is whatever answers on the bus; `recorded` is the device that also keeps what went over it.
use flight_computer_test.Base.{
  ℕ, zero, suc, not, ◌&&◌, Bool, true, false, ◌≡◌, Option, none, some, List, [], ◌∷◌, Bytes,
  if◌then◌else◌, ◌==◌,
}
use flight_computer_test.Spi.{SpiDevice}
use flight_computer_test.SdCard.Component.{SdCardFailure, SdCardInformation}
use flight_computer_test.SdCard.Driver.{SdCardDriver}

-- What happens on the bus. A card that could not be selected is `refused`.
pub data Event : Type 0 where
  initialized selected refused released prescaled : Event
  exchanged : Bytes → Event

-- Any card and bus: a state `K`, and what each call does to it.
pub record Chip (K : Type 0) : Type 0 where
  pub initialize : K → Bool × K
  pub select : K → Bool × K
  pub deselect : K → K
  pub transfer : Bytes → K → Option Bytes × K
  pub set_prescaler : ℕ → K → Bool × K

-- The log and the chip after a selection, by what the chip answers.
abbrev pub log_selection : {K : Type 0} → List Event → Bool × K → Bool × (List Event × K)
log_selection log (true, k) = (true, (selected ∷ log, k))
log_selection log (false, k) = (false, (refused ∷ log, k))

unfoldable pub recorded : {K : Type 0} → Chip K → SpiDevice (List Event × K)
recorded chip = record {
  operations = some (record {
    initialize = some (λ h. let (b, k) = chip.initialize h.1 in (b, (initialized ∷ h.0, k)));
    select = some (λ h. log_selection h.0 (chip.select h.1));
    deselect = some (λ h. (released ∷ h.0, chip.deselect h.1));
    transfer = some (λ tx h. let (rx, k) = chip.transfer tx h.1 in (rx, (exchanged tx ∷ h.0, k)));
    set_prescaler =
        some (λ p h. let (b, k) = chip.set_prescaler p h.1 in (b, (prescaled ∷ h.0, k)));
  });
}

-- The logs of a bus on which the card is selected only while it is not, and gets nothing but idle
-- bytes while it is not; the argument says whether it is.
pub data Orderly : Bool → List Event → Type 0 where
  start : Orderly false []
  initialize : {log : List Event} → Orderly false log → Orderly false (initialized ∷ log)
  select : {log : List Event} → Orderly false log → Orderly true (selected ∷ log)
  refuse : {log : List Event} → Orderly false log → Orderly false (refused ∷ log)
  release : {b : Bool} {log : List Event} → Orderly b log → Orderly false (released ∷ log)
  prescale : {log : List Event} → Orderly false log → Orderly false (prescaled ∷ log)
  idle : {b : Bool} {log : List Event} → Orderly b log → Orderly b (exchanged (0xFF ∷ []) ∷ log)
  send : {log : List Event} (tx : Bytes) → Orderly true log → Orderly true (exchanged tx ∷ log)

-- Whether the bytes of a transfer are one idle byte, and what went to the card besides those: the
-- commands, tokens and sectors, the latest first.
unfoldable pub is_idle : Bytes → Bool
is_idle (byte ∷ []) = byte == 0xFF
is_idle _ = false

unfoldable pub payloads : List Event → List Bytes
payloads [] = []
payloads (exchanged tx ∷ log) = if is_idle tx then payloads log else tx ∷ payloads log
payloads (_ ∷ log) = payloads log

-- A text of at most `n` bytes without a line break.
abbrev pub plain_within : ℕ → Bytes → Bool
plain_within n [] = true
plain_within zero (byte ∷ text) = false
plain_within (suc n) (byte ∷ text) =
    not (byte == b'\n') && (not (byte == b'\r') && plain_within n text)

-- A short text that is there, and a failure whose reason has a stage.
abbrev pub IsNamed : Option Bytes → Type 0
IsNamed none = ⊥
IsNamed (some text) = plain_within 48 text ≡ true

abbrev pub IsStaged : SdCardFailure → Type 0
IsStaged failure = elim failure.reason [
  | none ↦ Unit
  | some text ↦ IsNamed failure.stage × (plain_within 48 text ≡ true)
]

-- The statics and the caller's structure, besides the stage and the failure.
pub record Statics : Type 0 where
  pub high_capacity : Bool
  pub write_checksum : ℕ
  pub verify_checksum : ℕ
  pub information : SdCardInformation

abbrev pub statics_of : {H : Type 0} → SdCardDriver H → Statics
statics_of s = record {
  high_capacity = s.high_capacity;
  write_checksum = s.write_checksum;
  verify_checksum = s.verify_checksum;
  information = s.information;
}

abbrev pub put_statics : {H : Type 0} → (Statics → Statics) → SdCardDriver H → SdCardDriver H
put_statics g s =
    let v = g (statics_of s) in
    record s {
      high_capacity = v.high_capacity;
      write_checksum = v.write_checksum;
      verify_checksum = v.verify_checksum;
      information = v.information;
    }

module _ {K : Type 0} (chip : Chip K) where
  -- The driver works on the recorded device, in a stage, with the card selected or not and after
  -- some payloads; and the same of a driver with a failure to report.
  pub record Holds (v : Statics) (b : Bool) (sent : List Bytes) (s : SdCardDriver (List Event × K))
      : Type 0 where
    pub device : s.device ≡ some (recorded chip)
    pub bus : Orderly b s.hardware.0
    pub sends : payloads s.hardware.0 ≡ sent
    pub statics : statics_of s ≡ v
    pub stage : IsNamed s.active_stage
    pub failure : IsStaged s.last_failure

  pub record Fails (b : Bool) (s : SdCardDriver (List Event × K)) : Type 0 where
    pub device : s.device ≡ some (recorded chip)
    pub bus : Orderly b s.hardware.0
    pub stage : IsNamed s.last_failure.stage
    pub reason : IsNamed s.last_failure.reason

  -- The driver between two calls: nothing is selected.
  pub record Rests (v : Statics) (sent : List Bytes) (s : SdCardDriver (List Event × K))
      : Type 0 where
    pub device : s.device ≡ some (recorded chip)
    pub bus : Orderly false s.hardware.0
    pub sends : payloads s.hardware.0 ≡ sent
    pub statics : statics_of s ≡ v
