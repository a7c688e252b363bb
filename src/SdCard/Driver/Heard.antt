-- ===== src/SdCard/Driver/Heard.antt =====
-- firmware/manufacturing_test/drivers/sd_card/sd_card_driver.c: the bytes that the card answers. A chip
-- that is overheard keeps the first byte of each answer, the latest first.
use flight_computer_test.Base.{
  ℕ, zero, suc, ◌%◌, ◌^◌, ◌≡◌, refl, ap, subst, Option, none, some, Option-cases, inl, inr, List,
  [], ◌∷◌, Bytes, ◌==◌, ◌&&◌, length, get_or, ==_iff,
}
use flight_computer_test.Base.Int.{ℤ}
use flight_computer_test.Spi.{spi_device_deselect, spi_device_transfer}
use flight_computer_test.SdCard.Driver.{
  SdCardDriver, Action, Outcome, ok, failed, out_of_fuel, continue, give_up, fail, fail_if_unset,
  device_transfer, device_deselect, ◌>>=◌, ◌>>◌,
}
use flight_computer_test.SdCard.Driver.Exchange.{
  transfer_byte, read_bytes, deselect_card, else_deselect, poll_token, wait_for_data_token,
  data_start_token,
}
use flight_computer_test.SdCard.Driver.Ensures.{
  Ensures, Settles, ◌▷◌, if-Ensures, require-Ensures, require_some-Ensures, return-Ensures,
  gets-Ensures, from-Ensures, stop-Ensures,
}
use flight_computer_test.SdCard.Driver.Bus.{Chip, Event, recorded}

-- The answers so far, after one more.
abbrev pub hear : Option Bytes → Bytes → Bytes
hear none heard = heard
hear (some rx) heard = get_or rx 0 0 % 2 ^ 8 ∷ heard

abbrev pub overheard : {K : Type 0} → Chip K → Chip (Bytes × K)
overheard chip = record {
  initialize = λ h. let (b, k) = chip.initialize h.1 in (b, (h.0, k));
  select = λ h. let (b, k) = chip.select h.1 in (b, (h.0, k));
  deselect = λ h. (h.0, chip.deselect h.1);
  transfer = λ tx h. let (rx, k) = chip.transfer tx h.1 in (rx, (hear rx h.0, k));
  set_prescaler = λ p h. let (b, k) = chip.set_prescaler p h.1 in (b, (h.0, k));
}

-- Some bytes heard one after the other, behind those heard before.
abbrev pub heard_behind : Bytes → Bytes → Bytes
heard_behind [] heard = heard
heard_behind (byte ∷ bytes) heard = heard_behind bytes (byte ∷ heard)

abbrev pub Any : {H : Type 0} → SdCardDriver H → Type 0
Any _ = Unit

-- Whatever a thing is that a state has.
pub each-Ensures :
    {H A X : Type 0} {P : X → SdCardDriver H → Type 0} {m : Action H A}
    {Q : A → SdCardDriver H → Type 0} {E : SdCardDriver H → Type 0} {F : Type 0}
    → ((x : X) → Ensures (P x) m Q E F)
    → Ensures (λ s. (x : X) × P x s) m Q E F
each-Ensures f = record { settles = λ s (x, p). (f x).settles s p }

module _ {K : Type 0} (chip : Chip K) where
  -- The driver works on the overheard chip, which has answered these bytes.
  abbrev pub Hears : Bytes → SdCardDriver (List Event × (Bytes × K)) → Type 0
  Hears heard s = (s.device ≡ some (recorded (overheard chip))) × (s.hardware.1.0 ≡ heard)

  -- The last that was heard is the token of a sector, then its bytes, two bytes of a CRC, and the byte
  -- that follows the release of the card, if it was answered.
  abbrev pub Received : Bytes → SdCardDriver (List Event × (Bytes × K)) → Type 0
  Received buffer s =
      (earlier : Bytes) × (crc : Bytes) × (last : Option Bytes) × (length buffer ≡ 512)
      × (length crc ≡ 2)
      × Hears (hear last (heard_behind crc (heard_behind buffer (0xFE ∷ earlier)))) s

  transfer-Hears :
      (tx heard : Bytes)
      → Ensures (Hears heard) (device_transfer tx) (λ rx. Hears (hear rx heard)) Any Unit
  unfolding device_transfer spi_device_transfer recorded
  transfer-Hears tx heard = record {
    settles = λ s (device, same). (device, rw device (ap (hear _) same));
  }

  deselect-Hears :
      (heard : Bytes) → Ensures (Hears heard) device_deselect (λ _. Hears heard) Any Unit
  unfolding device_deselect spi_device_deselect recorded
  deselect-Hears heard = record { settles = λ s (device, same). (device, rw device same) }

  pub fail_if_unset-Never :
      {A : Type 0} {P : SdCardDriver (List Event × (Bytes × K)) → Type 0}
      {Q : A → SdCardDriver (List Event × (Bytes × K)) → Type 0} (reason : Bytes) (code : ℤ)
      → Ensures P (fail_if_unset reason code) Q Any Unit
  unfolding fail_if_unset fail
  fail_if_unset-Never reason code = record {
    settles =
        λ s _. elim (Option-cases s.last_failure.reason) [ inl e ↦ rw e tt | inr (_, e) ↦ rw e tt ];
  }

  transfer_byte-Hears :
      (byte : ℕ) (heard : Bytes)
      → Ensures (Hears heard) (transfer_byte byte) (λ value. Hears (value ∷ heard)) Any Unit
  unfolding transfer_byte
  transfer_byte-Hears byte heard = transfer-Hears (byte ∷ []) heard ▷ λ rx.
      require_some-Ensures rx {Q = λ bytes. Hears (get_or bytes 0 0 % 2 ^ 8 ∷ heard)}
        (λ bytes e s p. subst (λ rx. Hears (hear rx heard) s) e p) (fail_if_unset-Never _ _)
      ▷ λ bytes. return-Ensures (get_or bytes 0 0 % 2 ^ 8) (λ s p. p)

  pub read_bytes-Hears :
      (count : ℕ) (heard : Bytes)
      → Ensures
          (Hears heard)
          (read_bytes count)
          (λ bytes s. Hears (heard_behind bytes heard) s × (length bytes ≡ count))
          Any
          Unit
  unfolding read_bytes
  read_bytes-Hears zero heard = return-Ensures [] (λ s p. (p, refl))
  read_bytes-Hears (suc count) heard = transfer_byte-Hears 0xFF heard ▷ λ byte.
      read_bytes-Hears count (byte ∷ heard) ▷ λ rest.
      return-Ensures (byte ∷ rest) (λ s (p, size). (p, ap suc size))

  module _ (tick : List Event × (Bytes × K) → ℕ) where
    poll_token-Hears :
        (fuel started : ℕ) (heard : Bytes)
        → Ensures
            (Hears heard)
            (poll_token tick fuel started)
            (λ token s. (earlier : Bytes) × Hears (token ∷ earlier) s)
            Any
            Unit
    unfolding poll_token
    poll_token-Hears zero started heard = stop-Ensures
    poll_token-Hears (suc fuel) started heard = transfer_byte-Hears 0xFF heard ▷ λ token.
        gets-Ensures _ ▷ λ more.
        if-Ensures ((token == 0xFF) && more)
          (from-Ensures (λ s (p, _). p) (poll_token-Hears fuel started (token ∷ heard)))
          (return-Ensures token (λ s (p, _). (heard, p)))

    pub wait_for_data_token-Hears :
        (fuel : ℕ) (heard : Bytes)
        → Ensures
            (Hears heard)
            (wait_for_data_token tick fuel)
            (λ _ s. (earlier : Bytes) × Hears (0xFE ∷ earlier) s)
            Any
            Unit
    unfolding wait_for_data_token
    wait_for_data_token-Hears fuel heard = gets-Ensures _ ▷ λ started.
        from-Ensures (λ s (p, _). p) (poll_token-Hears fuel started heard) ▷ λ token.
        require-Ensures (token == data_start_token)
          (λ e s (earlier, p).
            (earlier, subst (λ token. Hears (token ∷ earlier) s) ((==_iff token 0xFE).0 e) p))
          (fail_if_unset-Never _ _)

  pub deselect_card-Hears :
      (heard : Bytes)
      → Ensures
          (Hears heard)
          deselect_card
          (λ _ s. (last : Option Bytes) × Hears (hear last heard) s)
          Any
          Unit
  unfolding deselect_card
  deselect_card-Hears heard =
      (deselect-Hears heard ▷ λ _. transfer-Hears (0xFF ∷ []) heard) ▷ λ last.
      return-Ensures tt (λ s p. (last, p))

  -- Giving up after another action is no success.
  gives_up :
      {A B : Type 0} (Q : B → SdCardDriver (List Event × (Bytes × K)) → Type 0)
      (r : Outcome A × SdCardDriver (List Event × (Bytes × K)))
      → Settles Q Any Unit (continue r (λ _. give_up))
  unfolding give_up
  gives_up Q (ok a, s) = tt
  gives_up Q (failed, s) = tt
  gives_up Q (out_of_fuel, s) = tt

  pub else_deselect-Any :
      {A : Type 0} {P : SdCardDriver (List Event × (Bytes × K)) → Type 0}
      {Q : A → SdCardDriver (List Event × (Bytes × K)) → Type 0}
      {m : Action (List Event × (Bytes × K)) A}
      → Ensures P m Q Any Unit
      → Ensures P (else_deselect m) Q Any Unit
  unfolding else_deselect ◌>>=◌
  else_deselect-Any {A = A} {Q = Q} {m = m} h = record {
    settles = λ s p. settled (m s) (h.settles s p);
  }
    where
      settled :
          (r : Outcome A × SdCardDriver (List Event × (Bytes × K)))
          → Settles Q Any Unit r
          → Settles Q Any Unit (elim r.0 [
            | ok a ↦ (ok a, r.1)
            | failed ↦ (deselect_card >> give_up) r.1
            | out_of_fuel ↦ (out_of_fuel, r.1)
          ])
      settled (ok a, s) q = q
      settled (failed, s) q = gives_up Q (deselect_card s)
      settled (out_of_fuel, s) q = tt
