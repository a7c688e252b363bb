-- ===== src/SdCard/Driver/Identify.antt =====
-- firmware/manufacturing_test/drivers/sd_card/sd_card_driver.c: read_csd and the whole initialization.
use flight_computer_test.Base.{
  ℕ, ◌≤◌, ◌<◌, ◌^◌, true, false, ◌≡◌, refl, subst, List, ◌∷◌, Bytes, some, length, All, ◌==◌, ltb,
  ltb→lt,
}
use flight_computer_test.SdCard.Csd.{sd_card_parse_csd, sd_card_parse_csd-Reads, Reads}
use flight_computer_test.SdCard.Driver.Start.{read_csd, use_csd, test_area_distance_from_end}
use flight_computer_test.SdCard.Driver.Ensures.{
  Ensures, ◌▷◌, require-Ensures, require_some-Ensures, both-Ensures, given-Ensures, from-Ensures,
  return-Ensures,
}
use flight_computer_test.SdCard.Driver.Bus.{Chip, Statics, Event, Holds, Fails}
use flight_computer_test.SdCard.Driver.Calls.{begin_stage-Ensures, fail-Ensures}
use flight_computer_test.SdCard.Driver.Transfers.{
  Fails-Ensures, read_bytes-Keeps, deselect_card-Sends, else_deselect-Ensures,
  expect_response-Sends,
}
use flight_computer_test.SdCard.Driver.Waits.{
  put_statics-Ensures, selected_command-Sends, wait_for_data_token-Keeps,
}
use flight_computer_test.SdCard.Driver.Received.{read_bytes-value}
use flight_computer_test.SdCard.Driver.Steps.{cmd9}

abbrev IsRegister : Bytes → Type 0
IsRegister csd = (length csd ≡ 16) × All (λ b. b < 256) csd

-- The sectors of a card that is large enough.
abbrev pub IsUsable : ℕ → Type 0
IsUsable sectors = (test_area_distance_from_end < sectors) × (sectors ≤ 2 ^ 32)

abbrev pub counted : ℕ → Statics → Statics
counted sectors v = record v { information = record v.information { sector_count = sectors } }

parsed-fits :
    (csd : Bytes) (sectors : ℕ)
    → IsRegister csd
    → sd_card_parse_csd csd ≡ some sectors
    → sectors ≤ 2 ^ 32
parsed-fits csd sectors (size, bytes) parsed =
    (subst (Reads csd) parsed (sd_card_parse_csd-Reads csd size bytes)).1

module _ {K : Type 0} {chip : Chip K} {v : Statics} {sent : List Bytes} where
  use_csd-Ensures :
      (csd : Bytes)
      → IsRegister csd
      → Ensures
          (Holds chip v false sent)
          (use_csd csd)
          (λ _ s. (sectors : ℕ) × Holds chip (counted sectors v) false sent s × IsUsable sectors)
          (Fails chip false)
          Unit
  unfolding use_csd
  use_csd-Ensures csd register =
      ◌▷◌ {Q = λ sectors s. Holds chip v false sent s × (sd_card_parse_csd csd ≡ some sectors)}
        (require_some-Ensures (sd_card_parse_csd csd) (λ _ e s h. (h, e)) (fail-Ensures _ _ refl))
        (λ sectors. given-Ensures (λ e. put_statics-Ensures (counted sectors) ▷ λ _.
          require-Ensures (ltb test_area_distance_from_end sectors)
            (λ large s h. (sectors, h, (ltb→lt _ _ large, parsed-fits csd sectors register e)))
            (fail-Ensures _ _ refl)))

module _ {K : Type 0} {chip : Chip K} {v : Statics} {sent : List Bytes} (tick : List Event × K → ℕ)
    (fuel : ℕ) where
  pub read_csd-Ensures :
      Ensures
        (Holds chip v false sent)
        (read_csd tick fuel)
        (λ _ s.
          (sectors : ℕ) × Holds chip (counted sectors v) false (cmd9 ∷ sent) s × IsUsable sectors)
        (Fails chip false)
        Unit
  unfolding read_csd
  read_csd-Ensures = begin_stage-Ensures _ refl ▷ λ _.
      selected_command-Sends tick fuel 9 0 0xFF ▷ λ response.
      expect_response-Sends response (response == 0) ▷ λ _.
      else_deselect-Ensures (
        Fails-Ensures (
          wait_for_data_token-Keeps tick fuel ▷ λ _.
          both-Ensures (read_bytes-Keeps 16) (from-Ensures (λ _ _. tt) (read_bytes-value 16))
          ▷ λ csd. given-Ensures (λ register. read_bytes-Keeps 2 ▷ λ _.
              return-Ensures {Q = λ csd s. Holds chip v true (cmd9 ∷ sent) s × IsRegister csd} csd
                (λ s h. (h, register)))))
      ▷ λ csd. given-Ensures (λ register. deselect_card-Sends ▷ λ _. use_csd-Ensures csd register)
