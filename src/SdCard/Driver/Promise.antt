-- ===== src/SdCard/Driver/Promise.antt =====
-- firmware/manufacturing_test/drivers/sd_card/sd_card_driver.c: the functions of sd_card_driver.h on
-- every outcome, with any card, bus and clock.
use flight_computer_test.Base.{
  ℕ, true, false, ◌≡◌, refl, ap, ◌⊎◌, inr, Option, none, some, List, Bytes, replicate,
}
use flight_computer_test.Base.Int.{ℤ}
use flight_computer_test.Spi.{SpiDevice}
use flight_computer_test.SdCard.Csd.{sd_block_size}
use flight_computer_test.SdCard.Component.{SdCardInformation}
use flight_computer_test.SdCard.Driver.{SdCardDriver, begin_stage, fail, modify}
use flight_computer_test.SdCard.Driver.Start.{clear_failure, sd_card_driver_initialize}
use flight_computer_test.SdCard.Driver.Blocks.{
  pattern, sd_card_driver_write_test_block, sd_card_driver_verify_test_block,
  sd_card_driver_clear_test_block,
}
use flight_computer_test.SdCard.Driver.Ensures.{
  Ensures, Settles, ◌▷◌, require-Ensures, require_some-Ensures, given-Ensures, into-Ensures,
  else-Ensures,
}
use flight_computer_test.SdCard.Driver.Bus.{
  Chip, Statics, statics_of, Event, recorded, Orderly, payloads, plain_within, IsNamed, IsStaged,
  Holds, Fails,
}
use flight_computer_test.SdCard.Driver.Calls.{begin_stage-Ensures, initialize-Ensures, fail-Ensures}
use flight_computer_test.SdCard.Driver.Transfers.{clock_bytes-Keeps}
use flight_computer_test.SdCard.Driver.Sectors.{written}
use flight_computer_test.SdCard.Driver.Operations.{
  informed, after_write, sector_of, Succeeded, Verified, clear_test_block-Sends,
  write_test_block-Sends, verify_test_block-Sends,
}
use flight_computer_test.SdCard.Driver.Initialize.{Identified, identify_card-Ensures}

-- The driver has no device yet, or the recorded one.
abbrev pub IsKnown : {K : Type 0} → Chip K → Option (SpiDevice (List Event × K)) → Type 0
IsKnown chip device = (device ≡ none) ⊎ (device ≡ some (recorded chip))

module _ {K : Type 0} (chip : Chip K) where
  -- A call that failed: the card is not selected, and the failure has a stage and a reason.
  pub record Reports (s : SdCardDriver (List Event × K)) : Type 0 where
    pub device : IsKnown chip s.device
    pub bus : Orderly false s.hardware.0
    pub stage : IsNamed s.last_failure.stage
    pub reason : IsNamed s.last_failure.reason

  -- A driver that may not know its device yet, at rest and then in a stage.
  record Sleeps (v : Statics) (sent : List Bytes) (s : SdCardDriver (List Event × K)) : Type 0 where
    device : IsKnown chip s.device
    bus : Orderly false s.hardware.0
    sends : payloads s.hardware.0 ≡ sent
    statics : statics_of s ≡ v

  record Wakes (v : Statics) (sent : List Bytes) (s : SdCardDriver (List Event × K)) : Type 0 where
    asleep : Sleeps v sent s
    stage : IsNamed s.active_stage
    failure : IsStaged s.last_failure

module _ {K : Type 0} {chip : Chip K} where
  waking :
      {v : Statics} {sent : List Bytes} {E : SdCardDriver (List Event × K) → Type 0} {F : Type 0}
      → Ensures
          (Sleeps chip v sent)
          clear_failure
          (λ _ s. Sleeps chip v sent s × IsStaged s.last_failure)
          E
          F
  unfolding modify
  waking = record {
    settles = λ s h.
        (record { device = h.device; bus = h.bus; sends = h.sends; statics = h.statics }, tt);
  }

  awake :
      {v : Statics} {sent : List Bytes} {E : SdCardDriver (List Event × K) → Type 0} {F : Type 0}
      (stage : Bytes)
      → plain_within 48 stage ≡ true
      → Ensures
          (λ s. Sleeps chip v sent s × IsStaged s.last_failure)
          (begin_stage stage)
          (λ _. Wakes chip v sent)
          E
          F
  unfolding begin_stage
  awake stage plain = record {
    settles = λ s (h, failure). record {
      asleep = record { device = h.device; bus = h.bus; sends = h.sends; statics = h.statics };
      stage = plain;
      failure = failure;
    };
  }

  next_stage :
      {v : Statics} {sent : List Bytes} {E : SdCardDriver (List Event × K) → Type 0} {F : Type 0}
      (stage : Bytes)
      → plain_within 48 stage ≡ true
      → Ensures (Wakes chip v sent) (begin_stage stage) (λ _. Wakes chip v sent) E F
  unfolding begin_stage
  next_stage stage plain = record {
    settles = λ s h. record {
      asleep = record {
        device = h.asleep.device;
        bus = h.asleep.bus;
        sends = h.asleep.sends;
        statics = h.asleep.statics;
      };
      stage = plain;
      failure = h.failure;
    };
  }

  no_information :
      {v : Statics} {sent : List Bytes} {A : Type 0}
      {Q : A → SdCardDriver (List Event × K) → Type 0} {F : Type 0} (reason : Bytes) (code : ℤ)
      → plain_within 48 reason ≡ true
      → Ensures (Wakes chip v sent) (fail reason code) Q (Reports chip) F
  unfolding fail
  no_information reason code plain = record {
    settles = λ s h. record {
      device = h.asleep.device;
      bus = h.asleep.bus;
      stage = h.stage;
      reason = plain;
    };
  }

  reports : (s : SdCardDriver (List Event × K)) → Fails chip false s → Reports chip s
  reports s h = record { device = inr h.device; bus = h.bus; stage = h.stage; reason = h.reason }

module _ {K : Type 0} (chip : Chip K) (tick : List Event × K → ℕ) (fuel : ℕ) where
  abbrev connect : SdCardInformation → SdCardDriver (List Event × K) → SdCardDriver (List Event × K)
  connect information s = record s { device = some (recorded chip); information = information }

  connected :
      {v : Statics} {sent : List Bytes} {E : SdCardDriver (List Event × K) → Type 0} {F : Type 0}
      (i : SdCardInformation)
      → Ensures
          (Wakes chip v sent)
          (modify (connect i))
          (λ _. Holds chip (informed i v) false sent)
          E
          F
  unfolding modify
  connected i = record {
    settles = λ s h. record {
      device = refl;
      bus = h.asleep.bus;
      sends = h.asleep.sends;
      statics = ap (informed i) h.asleep.statics;
      stage = h.stage;
      failure = h.failure;
    };
  }

  initialize_driver-Ensures :
      {v : Statics} {sent : List Bytes} (destination : Option SdCardInformation)
      → Ensures
          (Sleeps chip v sent)
          (sd_card_driver_initialize tick fuel (some (recorded chip)) destination)
          (λ _ s.
            (i : SdCardInformation) × (destination ≡ some i)
            × Identified chip (informed i v) sent s)
          (Reports chip)
          Unit
  unfolding sd_card_driver_initialize
  initialize_driver-Ensures {v = v} {sent = sent} destination = waking ▷ λ _. awake _ refl ▷ λ _.
      ◌▷◌ {Q = λ i s. Wakes chip v sent s × (destination ≡ some i)}
        (require_some-Ensures destination (λ _ e s h. (h, e)) (no_information _ _ refl))
        (λ i. given-Ensures (λ e. next_stage _ refl ▷ λ _. connected i ▷ λ _. else-Ensures reports (
          into-Ensures (λ _ s h. (i, e, h))
            (initialize-Ensures ▷ λ working.
              require-Ensures working (λ _ _ h. h) (fail-Ensures _ _ refl) ▷ λ _.
              begin_stage-Ensures _ refl ▷ λ _.
              clock_bytes-Keeps 10 ▷ λ _. identify_card-Ensures tick fuel))))

  -- Whatever the card, the bus and the clock do, and whether the caller passes a structure or not: a
  -- run of sd_card_driver_initialize, of a driver that has no device yet or this one, from an orderly
  -- bus with no card selected, leaves the bus so. If it
  -- succeeds, the card got CMD0, CMD8, CMD55 with ACMD41 one or more times, CMD58, CMD16 unless it has
  -- a high capacity, and CMD9, nothing else but idle bytes; the caller's structure has more than 16 and
  -- at most 2 ^ 32 sectors, and a test area that starts 16 sectors before the end. If it fails, the
  -- recorded failure has a stage and a reason.
  pub initialize-Settles :
      (destination : Option SdCardInformation) (s : SdCardDriver (List Event × K))
      → IsKnown chip s.device
      → Orderly false s.hardware.0
      → Settles
          (λ _ s'.
            (i : SdCardInformation) × (destination ≡ some i)
            × Identified chip (informed i (statics_of s)) (payloads s.hardware.0) s')
          (Reports chip)
          Unit
          (sd_card_driver_initialize tick fuel (some (recorded chip)) destination s)
  initialize-Settles destination s known orderly =
      (initialize_driver-Ensures destination).settles s
        (record { device = known; bus = orderly; sends = refl; statics = refl })

  -- Whatever the card, the bus and the clock do: a run of sd_card_driver_write_test_block, on the
  -- device and from an orderly bus with no card selected, leaves the bus so. It succeeds only with a
  -- structure of the caller and a block of the test area, once the card got CMD24 with the address of
  -- the block's sector, the data token and the pattern of the sector, nothing else but idle bytes; the
  -- checksum goes on over that pattern, from the start for block 0, and is complemented into the
  -- caller's structure with the last block. If it fails, the failure has a stage and a reason.
  pub write_test_block-Settles :
      (destination : Option SdCardInformation) (block : ℕ) (s : SdCardDriver (List Event × K))
      → s.device ≡ some (recorded chip)
      → Orderly false s.hardware.0
      → Settles
          (λ _. Succeeded chip destination block (after_write block (statics_of s)) (λ i.
            written s.high_capacity
              (sector_of i block)
              (pattern (sector_of i block))
              (payloads s.hardware.0)))
          (Reports chip)
          Unit
          (sd_card_driver_write_test_block tick fuel destination block s)
  write_test_block-Settles destination block s device orderly =
      (else-Ensures reports (write_test_block-Sends tick fuel destination block)).settles s
        (record { device = device; bus = orderly; sends = refl; statics = refl })

  -- Whatever the card, the bus and the clock do: a run of sd_card_driver_verify_test_block, on the
  -- device and from an orderly bus with no card selected, leaves the bus so. It succeeds only with a
  -- structure of the caller and a block of the test area, once the card got CMD17 with the address of
  -- the block's sector, nothing else but idle bytes; the checksum goes on over the pattern of that sector
  -- and is, with the last block, the one of the caller's structure. If it fails, the failure has a stage
  -- and a reason. ReadBack has what the card answered.
  pub verify_test_block-Settles :
      (destination : Option SdCardInformation) (block : ℕ) (s : SdCardDriver (List Event × K))
      → s.device ≡ some (recorded chip)
      → Orderly false s.hardware.0
      → Settles
          (λ _. Verified chip (statics_of s) (payloads s.hardware.0) destination block)
          (Reports chip)
          Unit
          (sd_card_driver_verify_test_block tick fuel destination block s)
  verify_test_block-Settles destination block s device orderly =
      (else-Ensures reports (verify_test_block-Sends tick fuel destination block)).settles s
        (record { device = device; bus = orderly; sends = refl; statics = refl })

  -- Whatever the card, the bus and the clock do: a run of sd_card_driver_clear_test_block, on the
  -- device and from an orderly bus with no card selected, leaves the bus so. It succeeds only with a
  -- structure of the caller and a block of the test area, once the card got CMD24 with the address of
  -- the block's sector, the data token and 512 zeros, nothing else but idle bytes. If it fails, the
  -- failure has a stage and a reason.
  pub clear_test_block-Settles :
      (destination : Option SdCardInformation) (block : ℕ) (s : SdCardDriver (List Event × K))
      → s.device ≡ some (recorded chip)
      → Orderly false s.hardware.0
      → Settles
          (λ _.
            Succeeded chip destination block
              (λ i. informed i (statics_of s))
              (λ i.
                written s.high_capacity
                  (sector_of i block)
                  (replicate sd_block_size 0)
                  (payloads s.hardware.0)))
          (Reports chip)
          Unit
          (sd_card_driver_clear_test_block tick fuel destination block s)
  clear_test_block-Settles destination block s device orderly =
      (else-Ensures reports (clear_test_block-Sends tick fuel destination block)).settles s
        (record { device = device; bus = orderly; sends = refl; statics = refl })
