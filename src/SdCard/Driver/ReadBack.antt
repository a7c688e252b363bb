-- ===== src/SdCard/Driver/ReadBack.antt =====
-- firmware/manufacturing_test/drivers/sd_card/sd_card_driver.c: a verified block came back from the
-- card.
use flight_computer_test.Base.{
  ℕ, bytes_equal, bytes_equal→eq, false, ◌≡◌, refl, sym, subst, Option, some, List, ◌∷◌, Bytes,
  ◌==◌, length,
}
use flight_computer_test.Base.Int.{ℤ}
use flight_computer_test.SdCard.Csd.{sd_block_size}
use flight_computer_test.SdCard.Driver.{SdCardDriver, fail}
use flight_computer_test.SdCard.Driver.Blocks.{read_block}
use flight_computer_test.SdCard.Driver.Ensures.{
  Settles-both, modify-Ensures, Ensures, Settles, ◌▷◌, require-Ensures, return-Ensures,
  gets-Ensures, gets-then-Ensures, else-Ensures, into-Ensures, from-Ensures, given-Ensures,
}
use flight_computer_test.SdCard.Driver.Bus.{
  statics_of, Orderly, payloads, Rests, Chip, Event, Statics, recorded, Holds,
}
use flight_computer_test.SdCard.Driver.Transfers.{expect_response-Sends}
use flight_computer_test.SdCard.Driver.Waits.{selected_command-Sends}
use flight_computer_test.SdCard.Driver.Sectors.{address_of, wire_address-Holds}
use flight_computer_test.SdCard.Driver.Heard.{
  Any, overheard, heard_behind, Hears, Received, each-Ensures, read_bytes-Hears,
  wait_for_data_token-Hears, deselect_card-Hears, else_deselect-Any,
}
use flight_computer_test.SdCard.Component.{SdCardInformation}
use flight_computer_test.SdCard.Driver.Blocks.{
  pattern, sd_card_driver_verify_test_block, block_sector,
}
use flight_computer_test.SdCard.Driver.Waits.{put_statics-Ensures}
use flight_computer_test.SdCard.Driver.Operations.{
  informed, begin_block-Begun, block_sector-Holds, sector_of, Verified,
}
use flight_computer_test.SdCard.Driver.Promise.{Reports, verify_test_block-Settles}

module _ {K : Type 0} (chip : Chip K) where
  -- What was heard once the bytes of a sector and their CRC were read.
  abbrev Sector : Bytes → Bytes × Bytes → SdCardDriver (List Event × (Bytes × K)) → Type 0
  Sector buffer (earlier, crc) s =
      (length buffer ≡ 512)
      × (length crc ≡ 2)
      × Hears chip (heard_behind crc (heard_behind buffer (0xFE ∷ earlier))) s

module _ {K : Type 0} (chip : Chip K) (tick : List Event × (Bytes × K) → ℕ) (fuel : ℕ) where
  -- read_block returns the 512 bytes that the card answered behind the token.
  pub read_block-Received :
      {v : Statics} {sent : List Bytes} (sector : ℕ)
      → Ensures
          (Holds (overheard chip) v false sent)
          (read_block tick fuel sector)
          (λ buffer. Received chip buffer)
          Any
          Unit
  unfolding read_block
  read_block-Received {v = v} sector =
      gets-then-Ensures _ _ (address_of v.high_capacity sector)
        (λ s h. wire_address-Holds tick fuel sector s h)
        (else-Ensures (λ _ _. tt)
            (selected_command-Sends tick fuel 17 (address_of v.high_capacity sector) 0xFF)
          ▷ λ response.
              else-Ensures (λ _ _. tt) (expect_response-Sends response (response == 0)) ▷ λ _.
              else_deselect-Any chip (
                from-Ensures (λ s h. (s.hardware.1.0, (h.device, refl)))
                  (each-Ensures (wait_for_data_token-Hears chip tick fuel))
                ▷ λ _. each-Ensures (λ earlier.
                  read_bytes-Hears chip sd_block_size (0xFE ∷ earlier) ▷ λ buffer.
                  given-Ensures (λ size.
                    read_bytes-Hears chip 2 (heard_behind buffer (0xFE ∷ earlier)) ▷ λ crc.
                    return-Ensures
                      {Q = λ buffer s. (around : Bytes × Bytes) × Sector chip buffer around s}
                      buffer (λ s (p, two). ((earlier, crc), (size, two, p))))))
              ▷ λ buffer. each-Ensures {P = Sector chip buffer} (λ (earlier, crc).
                from-Ensures (λ s (size, two, p). (p, (size, two)))
                  (given-Ensures (λ (size, two).
                    deselect_card-Hears chip
                      (heard_behind crc (heard_behind buffer (0xFE ∷ earlier)))
                    ▷ λ _.
                        return-Ensures buffer
                          (λ s (last, p). (earlier, crc, last, size, two, p))))))

  -- The caller's structure is there, and the bytes of a sector that the card answered are the pattern
  -- of the block's sector.
  abbrev pub ReadsBack :
      Option SdCardInformation → ℕ → SdCardDriver (List Event × (Bytes × K)) → Type 0
  ReadsBack destination block s =
      (i : SdCardInformation) × (destination ≡ some i)
      × Received chip (pattern (sector_of i block)) s

  never :
      {A : Type 0} {P : SdCardDriver (List Event × (Bytes × K)) → Type 0}
      {Q : A → SdCardDriver (List Event × (Bytes × K)) → Type 0} (reason : Bytes) (code : ℤ)
      → Ensures P (fail reason code) Q Any Unit
  unfolding fail
  never reason code = record { settles = λ s _. tt }

  verify_block-ReadsBack :
      {v : Statics} {sent : List Bytes} (destination : Option SdCardInformation) (block : ℕ)
      → Ensures
          (Rests (overheard chip) v sent)
          (sd_card_driver_verify_test_block tick fuel destination block)
          (λ _. ReadsBack destination block)
          Any
          Unit
  unfolding sd_card_driver_verify_test_block
  verify_block-ReadsBack {v = v} {sent = sent} destination block =
      into-Ensures
        {R = λ _ s.
          (i : SdCardInformation) × (Holds (overheard chip) (informed i v) false sent s
            × (destination ≡ some i))}
        (λ _ s (i, h, e, _). (i, (h, e)))
        (else-Ensures (λ _ _. tt) (begin_block-Begun _ destination block refl))
      ▷ λ _.
          each-Ensures
            {P = λ i s. Holds (overheard chip) (informed i v) false sent s × (destination ≡ some i)}
            (λ i. given-Ensures (λ e. gets-Ensures _ ▷ λ before.
              from-Ensures (λ s (h, _). h)
                (put_statics-Ensures (λ w. record w { verify_checksum = before }))
              ▷ λ _.
                  gets-then-Ensures (block_sector block) _ (sector_of i block)
                    (λ s h. block_sector-Holds block s h)
                    (read_block-Received (sector_of i block) ▷ λ received.
                      require-Ensures (bytes_equal (pattern (sector_of i block)) received)
                        {Q = Received chip (pattern (sector_of i block))}
                        (λ equal s p.
                          subst (λ bytes. Received chip bytes s)
                            (sym (bytes_equal→eq (pattern (sector_of i block)) received equal)) p)
                        (never _ _)
                      ▷ λ _.
                          modify-Ensures _ {Q = Received chip (pattern (sector_of i block))}
                            (λ s p. p)
                          ▷ λ _. gets-Ensures _ ▷ λ expected.
                              require-Ensures _ (λ _ s (p, _). (i, e, p)) (never _ _))))

  -- Whatever the card, the bus and the clock do: a run of sd_card_driver_verify_test_block, on the
  -- device and from an orderly bus with no card selected, leaves the bus so. It succeeds only with a
  -- structure of the caller and a block of the test area, once the card got CMD17 with the address of
  -- the block's sector, nothing else but idle bytes, and answered the token of a sector, the 512 bytes
  -- of the sector's pattern and two more, at most one other byte behind them. The checksum goes on over
  -- these bytes and is, with the last block, the one of the caller's structure. If it fails, the failure
  -- has a stage and a reason.
  pub verify_test_block-ReadsBack :
      (destination : Option SdCardInformation) (block : ℕ)
      (s : SdCardDriver (List Event × (Bytes × K)))
      → s.device ≡ some (recorded (overheard chip))
      → Orderly false s.hardware.0
      → Settles
          (λ _ s'.
            Verified (overheard chip) (statics_of s) (payloads s.hardware.0) destination block s'
            × ReadsBack destination block s')
          (Reports (overheard chip))
          Unit
          (sd_card_driver_verify_test_block tick fuel destination block s)
  verify_test_block-ReadsBack destination block s device orderly =
      Settles-both _ (λ _. ReadsBack destination block) _ Any Unit Unit _
        (verify_test_block-Settles (overheard chip) tick fuel destination block s device orderly)
        ((verify_block-ReadsBack destination block).settles s
          (record { device = device; bus = orderly; sends = refl; statics = refl }))
