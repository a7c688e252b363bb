-- ===== src/SdCard/Driver/Received.antt =====
-- firmware/manufacturing_test/drivers/sd_card/sd_card_driver.c: what read_bytes fills its buffer with,
-- whatever the bus does.
use flight_computer_test.Base.{
  ℕ, zero, suc, ◌%◌, ◌^◌, ◌<◌, ◌≡◌, refl, ap, [], ◌∷◌, length, All, get_or, arith,
}
use flight_computer_test.SdCard.Driver.{SdCardDriver, Action, Outcome, ok, failed, out_of_fuel}
use flight_computer_test.SdCard.Driver.Exchange.{transfer_byte, read_bytes}
use flight_computer_test.SdCard.Driver.Ensures.{
  Ensures, Settles, ◌▷◌, from-Ensures, given-Ensures, return-Ensures,
}

module _ {H : Type 0} where
  abbrev Whatever : SdCardDriver H → Type 0
  Whatever _ = Unit

  any_call :
      {A : Type 0} (f : Action H A)
      → ((s : SdCardDriver H) → Settles (λ _. Whatever) Whatever Unit (f s))
      → Ensures Whatever f (λ _. Whatever) Whatever Unit
  any_call f h = record { settles = λ s _. h s }

  any-Settles :
      {A : Type 0} (r : Outcome A × SdCardDriver H) → Settles (λ _. Whatever) Whatever Unit r
  any-Settles (ok a, s) = tt
  any-Settles (failed, s) = tt
  any-Settles (out_of_fuel, s) = tt

  any-Ensures : {A : Type 0} (m : Action H A) → Ensures Whatever m (λ _. Whatever) Whatever Unit
  any-Ensures m = any_call m (λ s. any-Settles (m s))

  transfer_byte-value :
      (byte : ℕ) → Ensures Whatever (transfer_byte byte) (λ value _. value < 256) Whatever Unit
  unfolding transfer_byte
  transfer_byte-value byte = any-Ensures _ ▷ λ received.
      any-Ensures _ ▷ λ bytes. return-Ensures (get_or bytes 0 0 % 2 ^ 8) (λ _ _. omega arith)

  pub read_bytes-value :
      (count : ℕ)
      → Ensures Whatever
          (read_bytes count)
          (λ bytes _. (length bytes ≡ count) × All (λ b. b < 256) bytes)
          Whatever
          Unit
  unfolding read_bytes
  read_bytes-value zero = return-Ensures [] (λ _ _. (refl, tt))
  read_bytes-value (suc count) = transfer_byte-value 0xFF ▷ λ byte.
      from-Ensures (λ _ small. (tt, small))
        (given-Ensures (λ small. read_bytes-value count ▷ λ rest.
          return-Ensures (byte ∷ rest) (λ _ (size, all). (ap suc size, (small, all)))))
