-- ===== src/SdCard/Driver/Initialize.antt =====
-- firmware/manufacturing_test/drivers/sd_card/sd_card_driver.c: what sd_card_driver_initialize sends, and
-- what it tells its caller.
use flight_computer_test.Base.{
  ℕ, suc, ◌+◌, ◌-◌, ◌%◌, ◌^◌, Bool, true, false, ◌≡◌, refl, ap, subst, List, ◌∷◌, Bytes, ◌&&◌,
  if◌then◌else◌, arith,
}
use flight_computer_test.Base.Int.{pos}
use flight_computer_test.Base.Text.{codes}
use flight_computer_test.SdCard.Driver.{
  SdCardDriver, Action, pure, gets, ◌>>=◌, ◌>>◌, begin_stage, device_set_prescaler, require, fail,
}
use flight_computer_test.SdCard.Driver.Start.{
  identify_card, set_block_length, read_information, test_area_distance_from_end,
  spi_baudrateprescaler_4,
}
use flight_computer_test.SdCard.Driver.Ensures.{
  Ensures, ◌▷◌, pure-Ensures, require-Ensures, into-Ensures, gets-then-Ensures,
}
use flight_computer_test.SdCard.Driver.Bus.{Chip, Statics, Event, Holds, Fails}
use flight_computer_test.SdCard.Driver.Calls.{
  begin_stage-Ensures, fail-Ensures, set_prescaler-Ensures,
}
use flight_computer_test.SdCard.Driver.Transfers.{Sends}
use flight_computer_test.SdCard.Driver.Waits.{put_statics-Ensures}
use flight_computer_test.SdCard.Driver.Steps.{
  cmd0, cmd8, cmd9, cmd16, cmd58, pairs, go_idle-Sends, interface_condition-Sends,
  wait_operating-Sends, read_ocr-Sends, set_block_length-Sends,
}
use flight_computer_test.SdCard.Driver.Identify.{IsUsable, counted, read_csd-Ensures}

-- The statics with the kind of the card, and then with its sectors and the test area.
abbrev pub of_kind : Bool → Statics → Statics
of_kind high_capacity v = record v {
  high_capacity = high_capacity;
  information = record v.information { high_capacity = high_capacity };
}

abbrev pub placed : Bool → ℕ → ℕ → Statics → Statics
placed high_capacity sectors test_sector v = record v {
  high_capacity = high_capacity;
  information = record v.information {
    high_capacity = high_capacity;
    sector_count = sectors;
    test_sector = test_sector;
  };
}

abbrev pub identified : Bool → ℕ → Statics → Statics
identified high_capacity sectors =
    placed high_capacity sectors (sectors - test_area_distance_from_end)

abbrev with_test_sector : Statics → Statics
with_test_sector v = record v {
  information = record v.information {
    test_sector =
        (v.information.sector_count + 2 ^ 64 - test_area_distance_from_end) % 2 ^ 64 % 2 ^ 32;
  };
}

-- The commands of an initialization, the latest first: CMD0, CMD8, `n + 1` pairs of CMD55 and
-- ACMD41, CMD58, CMD16 if the card has byte addresses, CMD9.
abbrev pub commands : Bool → Bool → ℕ → List Bytes → List Bytes
commands version_two high_capacity n sent =
    let start = cmd58 ∷ pairs version_two (suc n) (cmd8 ∷ cmd0 ∷ sent) in
    cmd9 ∷ (if high_capacity then start else cmd16 ∷ start)

-- The version of a card, the bit CCS that it gave, the passes of the loop, and its sectors.
pub record Card : Type 0 where
  pub version_two : Bool
  pub ccs : Bool
  pub passes : ℕ
  pub sectors : ℕ

abbrev pub is_high_capacity : Card → Bool
is_high_capacity card = card.version_two && card.ccs

abbrev pub Identified :
    {K : Type 0} → Chip K → Statics → List Bytes → SdCardDriver (List Event × K) → Type 0
Identified chip v sent s =
    (card : Card) × Holds chip (identified (is_high_capacity card) card.sectors v) false
      (commands card.version_two (is_high_capacity card) card.passes sent) s
    × IsUsable card.sectors

module _ {K : Type 0} {chip : Chip K} {A : Type 0} {m : Action (List Event × K) A}
    {Q : A → SdCardDriver (List Event × K) → Type 0} where
  -- A value that the statics and the payloads depend on.
  some-Ensures :
      {X : Type 0} (w : X → Statics) (sent : X → List Bytes) (C : X → Type 0)
      → ((x : X) → C x → Ensures (Holds chip (w x) false (sent x)) m Q (Fails chip false) Unit)
      → Ensures (λ s. (x : X) × Holds chip (w x) false (sent x) s × C x) m Q (Fails chip false) Unit
  some-Ensures w sent C h = record { settles = λ s (x, p, c). (h x c).settles s p }

  each-Ensures :
      {X : Type 0} (w : X → Statics) (sent : X → List Bytes)
      → ((x : X) → Ensures (Holds chip (w x) false (sent x)) m Q (Fails chip false) Unit)
      → Ensures (λ s. (x : X) × Holds chip (w x) false (sent x) s) m Q (Fails chip false) Unit
  each-Ensures w sent h = record { settles = λ s (x, p). (h x).settles s p }

test_sector-fits :
    (sectors : ℕ)
    → IsUsable sectors
    → (sectors + 2 ^ 64 - test_area_distance_from_end) % 2 ^ 64 % 2 ^ 32
      ≡ sectors - test_area_distance_from_end
test_sector-fits sectors (large, fits) = omega arith

module _ {K : Type 0} {chip : Chip K} (tick : List Event × K → ℕ) (fuel : ℕ) where
  read_information-Ensures :
      {v : Statics} {sent : List Bytes}
      → Ensures
          (Holds chip v false sent)
          (read_information tick fuel)
          (λ _ s.
            (sectors : ℕ) × Holds chip (identified v.high_capacity sectors v) false (cmd9 ∷ sent) s
            × IsUsable sectors)
          (Fails chip false)
          Unit
  unfolding read_information
  read_information-Ensures {v = v} {sent = sent} =
      put_statics-Ensures (λ w. of_kind w.high_capacity w) ▷ λ _. read_csd-Ensures tick fuel ▷ λ _.
      some-Ensures (λ sectors. counted sectors (of_kind v.high_capacity v)) (λ _. cmd9 ∷ sent)
        IsUsable
        (λ sectors usable.
          into-Ensures
            (λ _ s h. (
              sectors,
              subst (λ t. Holds chip (placed v.high_capacity sectors t v) false (cmd9 ∷ sent) s)
                  (test_sector-fits sectors usable) h,
              usable,
            ))
            (put_statics-Ensures with_test_sector))

  block_length-Ensures :
      {v : Statics} {sent : List Bytes} (high_capacity : Bool)
      → Sends chip v false sent
          (if high_capacity then pure tt else set_block_length tick fuel)
          false
          (if high_capacity then sent else cmd16 ∷ sent)
          (Fails chip false)
  block_length-Ensures true = pure-Ensures tt
  block_length-Ensures false = set_block_length-Sends tick fuel

  pub identify_card-Ensures :
      {v : Statics} {sent : List Bytes}
      → Ensures
          (Holds chip v false sent)
          (identify_card tick fuel)
          (λ _. Identified chip v sent)
          (Fails chip false)
          Unit
  unfolding identify_card
  identify_card-Ensures {v = v} {sent = sent} = go_idle-Sends ▷ λ _.
      interface_condition-Sends tick fuel ▷ λ version_two.
      wait_operating-Sends tick fuel version_two ▷ λ _.
      each-Ensures (λ _. v) (λ n. pairs version_two (suc n) (cmd8 ∷ cmd0 ∷ sent))
        (λ n. read_ocr-Sends tick fuel version_two ▷ λ _.
          each-Ensures (λ c. record v { high_capacity = version_two && c })
            (λ _. cmd58 ∷ pairs version_two (suc n) (cmd8 ∷ cmd0 ∷ sent))
            (λ c. rest version_two n c))
    where
      rest :
          (version_two : Bool) (n : ℕ) (c : Bool)
          → Ensures
              (Holds chip
                (record v { high_capacity = version_two && c })
                false
                (cmd58 ∷ pairs version_two (suc n) (cmd8 ∷ cmd0 ∷ sent)))
              (do
                high_capacity ← gets (λ s. s.high_capacity)
                if high_capacity then pure tt else set_block_length tick fuel
                read_information tick fuel
                begin_stage (codes "spi_high_speed")
                raised ← device_set_prescaler spi_baudrateprescaler_4
                require raised (fail (codes "spi_prescaler_change_failed") (pos 0)))
              (λ _. Identified chip v sent)
              (Fails chip false)
              Unit
      rest version_two n c =
          gets-then-Ensures (λ s. s.high_capacity) _ (version_two && c)
            (λ s h. ap (λ w. w.high_capacity) h.statics)
            (block_length-Ensures (version_two && c) ▷ λ _. read_information-Ensures ▷ λ _.
              some-Ensures (λ sectors. identified (version_two && c) sectors v)
                (λ _. commands version_two (version_two && c) n sent) IsUsable
                (λ sectors usable. begin_stage-Ensures _ refl ▷ λ _.
                  set_prescaler-Ensures spi_baudrateprescaler_4 ▷ λ raised.
                  require-Ensures raised
                    (λ _ s h. (
                      record { version_two = version_two; ccs = c; passes = n; sectors = sectors },
                      h,
                      usable,
                    ))
                    (fail-Ensures _ _ refl)))
