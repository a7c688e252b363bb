-- ===== src/SdCard/Driver/Calls.antt =====
-- What the calls on the recorded device, and the reports of a failure, do to the bus and the statics.
use flight_computer_test.Base.{
  ℕ, Bool, true, false, ◌≡◌, refl, ◌∙◌, subst, Option-cases, inl, inr, none, some, List, [], ◌∷◌,
  Bytes,
}
use flight_computer_test.Base.Int.{ℤ}
use flight_computer_test.Spi.{
  spi_device_initialize, spi_device_select, spi_device_deselect, spi_device_transfer,
  spi_device_set_prescaler,
}
use flight_computer_test.SdCard.Driver.{
  SdCardDriver, begin_stage, fail, fail_if_unset, give_up, modify, device_initialize, device_select,
  device_deselect, device_transfer, device_set_prescaler,
}
use flight_computer_test.SdCard.Driver.Start.{clear_failure}
use flight_computer_test.SdCard.Driver.Ensures.{Ensures}
use flight_computer_test.SdCard.Driver.Bus.{
  Chip, Statics, Event, recorded, log_selection, Orderly, initialize, select, refuse, release,
  prescale, idle, send, is_idle, payloads, plain_within, IsNamed, IsStaged, Holds, Fails, Rests,
}

module _ {K : Type 0} {chip : Chip K} where
  -- The state after a call that only moves the hardware.
  moved :
      {b b' : Bool} {v : Statics} {sent sent' : List Bytes} {s : SdCardDriver (List Event × K)}
      (h : List Event × K)
      → Holds chip v b sent s
      → Orderly b' h.0
      → payloads h.0 ≡ sent'
      → Holds chip v b' sent' (record s { hardware = h })
  moved h holds bus sends = record {
    device = holds.device;
    bus = bus;
    sends = sends;
    statics = holds.statics;
    stage = holds.stage;
    failure = holds.failure;
  }

  moved_failed :
      {b b' : Bool} {s : SdCardDriver (List Event × K)} (h : List Event × K)
      → Fails chip b s
      → Orderly b' h.0
      → Fails chip b' (record s { hardware = h })
  moved_failed h fails bus = record {
    device = fails.device;
    bus = bus;
    stage = fails.stage;
    reason = fails.reason;
  }

-- A selection, by what the chip answers.
selects :
    {K : Type 0} {log : List Event} (r : Bool × K)
    → Orderly false log
    → Orderly r.0 (log_selection log r).1.0
selects (true, k) o = select o
selects (false, k) o = refuse o

selects-payloads :
    {K : Type 0} (log : List Event) (r : Bool × K)
    → payloads (log_selection log r).1.0 ≡ payloads log
unfolding payloads
selects-payloads log (true, k) = refl
selects-payloads log (false, k) = refl

selection_answer : {K : Type 0} (log : List Event) (r : Bool × K) → (log_selection log r).0 ≡ r.0
selection_answer log (true, k) = refl
selection_answer log (false, k) = refl

module _ {K : Type 0} {chip : Chip K} {E : SdCardDriver (List Event × K) → Type 0}
    {F : Type 0} where
  pub transfer_idle-Ensures :
      {b : Bool} {v : Statics} {sent : List Bytes}
      → Ensures (Holds chip v b sent) (device_transfer (0xFF ∷ [])) (λ _. Holds chip v b sent) E F
  unfolding device_transfer spi_device_transfer recorded payloads is_idle
  transfer_idle-Ensures {b = b} {sent = sent} = record {
    settles = λ s h. moved _ h (rw (h.device) (idle h.bus)) (rw (h.device) h.sends);
  }

  pub transfer_payload-Ensures :
      {v : Statics} {sent : List Bytes} (tx : Bytes)
      → is_idle tx ≡ false
      → Ensures
          (Holds chip v true sent)
          (device_transfer tx)
          (λ _. Holds chip v true (tx ∷ sent))
          E
          F
  unfolding device_transfer spi_device_transfer recorded payloads
  transfer_payload-Ensures {sent = sent} tx busy = record {
    settles = λ s h. moved _ h (rw (h.device) (send tx h.bus)) (rw (h.device, busy, h.sends));
  }

  pub transfer_failed-Ensures :
      {b : Bool} → Ensures (Fails chip b) (device_transfer (0xFF ∷ [])) (λ _. Fails chip b) E F
  unfolding device_transfer spi_device_transfer recorded
  transfer_failed-Ensures = record {
    settles = λ s h. moved_failed _ h (rw (h.device) (idle h.bus));
  }

  pub deselect-Ensures :
      {b : Bool} {v : Statics} {sent : List Bytes}
      → Ensures (Holds chip v b sent) device_deselect (λ _. Holds chip v false sent) E F
  unfolding device_deselect spi_device_deselect recorded payloads
  deselect-Ensures = record {
    settles = λ s h. moved _ h (rw (h.device) (release h.bus)) (rw (h.device) h.sends);
  }

  pub deselect_failed-Ensures :
      {b : Bool} → Ensures (Fails chip b) device_deselect (λ _. Fails chip false) E F
  unfolding device_deselect spi_device_deselect recorded
  deselect_failed-Ensures = record {
    settles = λ s h. moved_failed _ h (rw (h.device) (release h.bus));
  }

  pub select-Ensures :
      {v : Statics} {sent : List Bytes}
      → Ensures (Holds chip v false sent) device_select (λ got. Holds chip v got sent) E F
  unfolding device_select spi_device_select recorded
  select-Ensures {sent = sent} = record {
    settles = λ s h.
        let r = chip.select s.hardware.1 in
        moved _ h (rw (h.device, selection_answer s.hardware.0 r) (selects r h.bus))
          (rw (h.device) (selects-payloads s.hardware.0 r ∙ h.sends));
  }

  pub initialize-Ensures :
      {v : Statics} {sent : List Bytes}
      → Ensures (Holds chip v false sent) device_initialize (λ _. Holds chip v false sent) E F
  unfolding device_initialize spi_device_initialize recorded payloads
  initialize-Ensures {sent = sent} = record {
    settles = λ s h. moved _ h (rw (h.device) (initialize h.bus)) (rw (h.device) h.sends);
  }

  pub set_prescaler-Ensures :
      {v : Statics} {sent : List Bytes} (prescaler : ℕ)
      → Ensures
          (Holds chip v false sent)
          (device_set_prescaler prescaler)
          (λ _. Holds chip v false sent)
          E
          F
  unfolding device_set_prescaler spi_device_set_prescaler recorded payloads
  set_prescaler-Ensures {sent = sent} prescaler = record {
    settles = λ s h. moved _ h (rw (h.device) (prescale h.bus)) (rw (h.device) h.sends);
  }

  pub begin_stage-Ensures :
      {b : Bool} {v : Statics} {sent : List Bytes} (stage : Bytes)
      → plain_within 48 stage ≡ true
      → Ensures (Holds chip v b sent) (begin_stage stage) (λ _. Holds chip v b sent) E F
  unfolding begin_stage
  begin_stage-Ensures stage plain = record {
    settles = λ s h. record {
      device = h.device;
      bus = h.bus;
      sends = h.sends;
      statics = h.statics;
      stage = plain;
      failure = h.failure;
    };
  }

  -- The start of an operation: the last failure is cleared, and a first stage begins.
  pub clear_failure-Ensures :
      {v : Statics} {sent : List Bytes}
      → Ensures
          (Rests chip v sent)
          clear_failure
          (λ _ s. Rests chip v sent s × IsStaged s.last_failure)
          E
          F
  unfolding modify
  clear_failure-Ensures = record {
    settles = λ s h.
        (record { device = h.device; bus = h.bus; sends = h.sends; statics = h.statics }, tt);
  }

  pub first_stage-Ensures :
      {v : Statics} {sent : List Bytes} (stage : Bytes)
      → plain_within 48 stage ≡ true
      → Ensures
          (λ s. Rests chip v sent s × IsStaged s.last_failure)
          (begin_stage stage)
          (λ _. Holds chip v false sent)
          E
          F
  unfolding begin_stage
  first_stage-Ensures stage plain = record {
    settles = λ s (h, failure). record {
      device = h.device;
      bus = h.bus;
      sends = h.sends;
      statics = h.statics;
      stage = plain;
      failure = failure;
    };
  }

module _ {K : Type 0} {chip : Chip K} {A : Type 0} {b : Bool}
    {Q : A → SdCardDriver (List Event × K) → Type 0} {F : Type 0} where
  pub fail-Ensures :
      {v : Statics} {sent : List Bytes} (reason : Bytes) (code : ℤ)
      → plain_within 48 reason ≡ true
      → Ensures (Holds chip v b sent) (fail reason code) Q (Fails chip b) F
  unfolding fail
  fail-Ensures reason code plain = record {
    settles = λ s h. record { device = h.device; bus = h.bus; stage = h.stage; reason = plain };
  }

  pub fail_if_unset-Ensures :
      {v : Statics} {sent : List Bytes} (reason : Bytes) (code : ℤ)
      → plain_within 48 reason ≡ true
      → Ensures (Holds chip v b sent) (fail_if_unset reason code) Q (Fails chip b) F
  unfolding fail_if_unset fail
  fail_if_unset-Ensures reason code plain = record {
    settles = λ s h. elim (Option-cases s.last_failure.reason) [
      | inl none_yet ↦
          rw (none_yet) (record { device = h.device; bus = h.bus; stage = h.stage; reason = plain })
      | inr (x, set) ↦
          let both : IsNamed s.last_failure.stage × (plain_within 48 x ≡ true) =
            subst
              (λ r. elim r [
                | none ↦ Unit
                | some text ↦ IsNamed s.last_failure.stage × (plain_within 48 text ≡ true)
              ])
              set h.failure in
          rw set (record { device = h.device; bus = h.bus; stage = both.0; reason = both.1 })
    ];
  }

  pub give_up-Ensures : Ensures (Fails chip b) give_up Q (Fails chip b) F
  unfolding give_up
  give_up-Ensures = record { settles = λ s h. h }
