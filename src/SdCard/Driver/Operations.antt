-- ===== src/SdCard/Driver/Operations.antt =====
-- firmware/manufacturing_test/drivers/sd_card/sd_card_driver.c: the operations on a block of the
-- test area, on every outcome.
use flight_computer_test.Base.{
  ℕ, ◌+◌, ◌-◌, ◌%◌, ◌^◌, ◌<◌, ltb→lt, Bool, true, false, ◌≡◌, refl, ap, Option, some, List, Bytes,
  ltb, ◌==◌, replicate, bytes_equal, bytes_equal→eq, not, ◌||◌, if◌then◌else◌,
}
use flight_computer_test.SdCard.Csd.{sd_block_size}
use flight_computer_test.SdCard.Component.{SdCardInformation, test_block_count}
use flight_computer_test.SdCard.Driver.{SdCardDriver, Action, pure, modify}
use flight_computer_test.SdCard.Driver.Blocks.{
  set_checksum, checksum_update, complement, pattern, pattern_from, block_sector, begin_block,
  sd_card_driver_write_test_block, sd_card_driver_verify_test_block,
  sd_card_driver_clear_test_block,
}
use flight_computer_test.SdCard.Driver.Ensures.{
  Ensures, ◌▷◌, pure-Ensures, require-Ensures, require_some-Ensures, given-Ensures,
  gets-then-Ensures, into-Ensures,
}
use flight_computer_test.SdCard.Driver.Bus.{
  Chip, Statics, Event, plain_within, is_idle, Holds, Fails, Rests,
}
use flight_computer_test.SdCard.Driver.Calls.{
  clear_failure-Ensures, first_stage-Ensures, fail-Ensures,
}
use flight_computer_test.SdCard.Driver.Waits.{put_statics-Ensures}
use flight_computer_test.SdCard.Driver.Sectors.{written, asked, write_block-Sends, read_block-Sends}

-- The statics of a driver that works on some information.
abbrev pub informed : SdCardInformation → Statics → Statics
informed information v = record v { information = information }

-- An operation on a block of the test area has begun, with the caller's information.
abbrev pub Begun :
    {K : Type 0}
    → Chip K
    → Statics
    → List Bytes
    → Option SdCardInformation
    → ℕ
    → SdCardDriver (List Event × K)
    → Type 0
Begun chip v sent destination block s =
    (i : SdCardInformation) × Holds chip (informed i v) false sent s
    × (destination ≡ some i)
    × (block < test_block_count)

module _ {K : Type 0} {chip : Chip K} {v : Statics} {sent : List Bytes} where
  pub begin_block-Begun :
      (stage : Bytes) (destination : Option SdCardInformation) (block : ℕ)
      → plain_within 48 stage ≡ true
      → Ensures
          (Rests chip v sent)
          (begin_block stage destination block)
          (λ _. Begun chip v sent destination block)
          (Fails chip false)
          Unit
  unfolding begin_block
  begin_block-Begun stage destination block plain = clear_failure-Ensures ▷ λ _.
      first_stage-Ensures stage plain ▷ λ _.
      ◌▷◌ {Q = λ i s. Holds chip v false sent s × (destination ≡ some i)}
        (require_some-Ensures destination (λ _ e s h. (h, e)) (fail-Ensures _ _ refl))
        (λ i. given-Ensures (λ e. put_statics-Ensures (informed i) ▷ λ _.
          require-Ensures (ltb block test_block_count)
            (λ small s h. (i, h, e, ltb→lt block test_block_count small)) (fail-Ensures _ _ refl)))

  pub block_sector-Holds :
      {b : Bool} (block : ℕ) (s : SdCardDriver (List Event × K))
      → Holds chip v b sent s
      → block_sector block s ≡ (v.information.test_sector + block) % 2 ^ 32
  block_sector-Holds block s h = ap (λ v. (v.information.test_sector + block) % 2 ^ 32) h.statics

module _ {K : Type 0} {chip : Chip K} {sent : List Bytes} where
  Begun-Ensures :
      (v : Statics) {A : Type 0} {m : Action (List Event × K) A}
      {Q : A → SdCardDriver (List Event × K) → Type 0} (destination : Option SdCardInformation)
      (block : ℕ)
      → ((i : SdCardInformation)
          → destination ≡ some i
          → block < test_block_count
          → Ensures (Holds chip (informed i v) false sent) m Q (Fails chip false) Unit)
      → Ensures (Begun chip v sent destination block) m Q (Fails chip false) Unit
  Begun-Ensures v destination block h = record {
    settles = λ s (i, p, e, small). (h i e small).settles s p;
  }

-- What an operation on a block ensures of the driver, with the statics and the payloads that it says.
abbrev pub Succeeded :
    {K : Type 0}
    → Chip K
    → Option SdCardInformation
    → ℕ
    → (SdCardInformation → Statics)
    → (SdCardInformation → List Bytes)
    → SdCardDriver (List Event × K)
    → Type 0
Succeeded chip destination block statics sent s =
    (i : SdCardInformation) × (destination ≡ some i)
    × (block < test_block_count)
    × Holds chip (statics i) false (sent i) s

-- The sector of a block.
abbrev pub sector_of : SdCardInformation → ℕ → ℕ
sector_of i block = (i.test_sector + block) % 2 ^ 32

-- The statics after a block was written, and after one was verified.
abbrev pub checksum_of : ℕ → ℕ → SdCardInformation → ℕ
checksum_of before block i =
    checksum_update (if block == 0 then 0xFFFFFFFF else before) (pattern (sector_of i block))

abbrev pub after_write : ℕ → Statics → SdCardInformation → Statics
after_write block v i =
    let checksum = checksum_of v.write_checksum block i in
    record v {
      write_checksum = checksum;
      information =
          if block == test_block_count - 1 then record i { checksum = complement checksum } else i;
    }

abbrev pub after_verify : ℕ → Statics → SdCardInformation → Statics
after_verify block v i = record v {
  verify_checksum = checksum_of v.verify_checksum block i;
  information = i;
}

-- Whether a checksum is the one of the information, asked with the last block only.
abbrev pub last_matches : ℕ → ℕ → SdCardInformation → Bool
last_matches block checksum i =
    not (block == test_block_count - 1) || (complement checksum == i.checksum)

-- What the success of a verification says of the driver: the sector was asked for, and the checksum is
-- the one over its pattern.
abbrev pub Verified :
    {K : Type 0}
    → Chip K
    → Statics
    → List Bytes
    → Option SdCardInformation
    → ℕ
    → SdCardDriver (List Event × K)
    → Type 0
Verified chip v sent destination block s =
    (i : SdCardInformation) × (destination ≡ some i)
    × (block < test_block_count)
    × Holds chip (after_verify block v i) false (asked v.high_capacity (sector_of i block) sent) s
    × (last_matches block (checksum_of v.verify_checksum block i) i ≡ true)

module _ {K : Type 0} {chip : Chip K} {sent : List Bytes} where
  -- The caller's structure gets the checksum with the last block.
  last_checksum :
      {E : SdCardDriver (List Event × K) → Type 0} (w : Statics) (last : Bool) (checksum : ℕ)
      → Ensures
          (Holds chip w false sent)
          (if last then modify (set_checksum checksum) else pure tt)
          (λ _.
            Holds chip
              (record w {
                information =
                    if last then record w.information { checksum = checksum } else w.information;
              })
              false
              sent)
          E
          Unit
  last_checksum w true checksum =
      put_statics-Ensures
        (λ w. record w { information = record w.information { checksum = checksum } })
  last_checksum w false checksum = pure-Ensures tt

module _ {K : Type 0} {chip : Chip K} {v : Statics} {sent : List Bytes} (tick : List Event × K → ℕ)
    (fuel : ℕ) (destination : Option SdCardInformation) (block : ℕ) where
  -- A block cleared.
  pub clear_test_block-Sends :
      Ensures
        (Rests chip v sent)
        (sd_card_driver_clear_test_block tick fuel destination block)
        (λ _.
          Succeeded chip destination block
            (λ i. informed i v)
            (λ i. written v.high_capacity (sector_of i block) (replicate sd_block_size 0) sent))
        (Fails chip false)
        Unit
  unfolding sd_card_driver_clear_test_block is_idle
  clear_test_block-Sends = begin_block-Begun _ destination block refl ▷ λ _.
      Begun-Ensures v destination block (λ i e small.
        gets-then-Ensures (block_sector block) _ (sector_of i block)
          (λ s h. block_sector-Holds block s h)
          (into-Ensures (λ _ s h. (i, e, small, h))
            (write_block-Sends tick fuel (sector_of i block) (replicate sd_block_size 0) refl)))

  pub write_test_block-Sends :
      Ensures
        (Rests chip v sent)
        (sd_card_driver_write_test_block tick fuel destination block)
        (λ _.
          Succeeded chip destination block
            (after_write block v)
            (λ i. written v.high_capacity (sector_of i block) (pattern (sector_of i block)) sent))
        (Fails chip false)
        Unit
  unfolding sd_card_driver_write_test_block pattern pattern_from is_idle
  write_test_block-Sends = begin_block-Begun _ destination block refl ▷ λ _.
      Begun-Ensures v destination block (λ i e small.
        gets-then-Ensures _ _ (if block == 0 then 0xFFFFFFFF else v.write_checksum)
          (λ s h. ap (λ w. if block == 0 then 0xFFFFFFFF else w.write_checksum) h.statics)
          (gets-then-Ensures (block_sector block) _ (sector_of i block)
            (λ s h. block_sector-Holds block s h)
            (put_statics-Ensures
                (λ w. record w { write_checksum = checksum_of v.write_checksum block i })
              ▷ λ _.
                  write_block-Sends tick fuel (sector_of i block) (pattern (sector_of i block)) refl
                  ▷ λ _.
                      into-Ensures (λ _ s h. (i, e, small, h))
                        (last_checksum _ (block == test_block_count - 1) _))))

  pub verify_test_block-Sends :
      Ensures
        (Rests chip v sent)
        (sd_card_driver_verify_test_block tick fuel destination block)
        (λ _. Verified chip v sent destination block)
        (Fails chip false)
        Unit
  unfolding sd_card_driver_verify_test_block
  verify_test_block-Sends = begin_block-Begun _ destination block refl ▷ λ _.
      Begun-Ensures v destination block (λ i e small.
        gets-then-Ensures _ _ (if block == 0 then 0xFFFFFFFF else v.verify_checksum)
          (λ s h. ap (λ w. if block == 0 then 0xFFFFFFFF else w.verify_checksum) h.statics)
          (put_statics-Ensures (λ w. record w {
            verify_checksum = if block == 0 then 0xFFFFFFFF else v.verify_checksum;
          })
            ▷ λ _.
                gets-then-Ensures (block_sector block) _ (sector_of i block)
                  (λ s h. block_sector-Holds block s h)
                  (read_block-Sends tick fuel (sector_of i block) ▷ λ received.
                    require-Ensures (bytes_equal (pattern (sector_of i block)) received)
                      {Q = λ s.
                        Holds chip (verifying i) false
                          (asked v.high_capacity (sector_of i block) sent) s
                        × (pattern (sector_of i block) ≡ received)}
                      (λ equal s h.
                        (h, bytes_equal→eq (pattern (sector_of i block)) received equal))
                      (fail-Ensures _ _ refl)
                    ▷ λ _. given-Ensures (λ same.
                      put_statics-Ensures (λ w. record w {
                        verify_checksum = checksum_update (verifying i).verify_checksum received;
                      })
                      ▷ λ _.
                          gets-then-Ensures (λ s. s.information.checksum) _ i.checksum
                            (λ s h. ap (λ w. w.information.checksum) h.statics)
                            (require-Ensures
                              (last_matches block
                                (checksum_update (verifying i).verify_checksum received) i)
                              (λ matches s h. found i received same e small matches s h)
                              (fail-Ensures _ _ refl))))))
    where
      verifying : SdCardInformation → Statics
      verifying i = record v {
        verify_checksum = if block == 0 then 0xFFFFFFFF else v.verify_checksum;
        information = i;
      }

      found :
          (i : SdCardInformation) (received : Bytes)
          → pattern (sector_of i block) ≡ received
          → destination ≡ some i
          → block < test_block_count
          → last_matches block (checksum_update (verifying i).verify_checksum received) i ≡ true
          → (s : SdCardDriver (List Event × K))
          → Holds chip
              (record v {
                verify_checksum = checksum_update (verifying i).verify_checksum received;
                information = i;
              })
              false
              (asked v.high_capacity (sector_of i block) sent)
              s
          → Verified chip v sent destination block s
      found i received same e small matches s h = (i, e, small, rw same h, rw same matches)
