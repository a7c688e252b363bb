-- ===== src/SdCard/Whole.antt =====
-- The component test firmware/manufacturing_test/components/sd_card/sd_card_test.c on the card driver
-- firmware/manufacturing_test/drivers/sd_card/sd_card_driver.c.
pub mod Component
use flight_computer_test.Base.{
  ℕ, zero, suc, [], ◌∷◌, memchr, length, ◌==◌, ◌+◌, ◌-◌, ◌*◌, ◌≤◌, ◌<◌, ◌≡◌, ◌⊎◌, inl, inr, refl,
  ap, ◌∙◌, subst, sym, Bool-cases, Bool, true, false, not, Option, none, some, List, Bytes, ltb,
  if◌then◌else◌, arith,
}
use flight_computer_test.Base.Text.{codes}
use flight_computer_test.Spi.{SpiDevice, spi_device_deselect, spi_device_transfer}
use flight_computer_test.Response.Clean.{Prints}
use flight_computer_test.Response.Events.{Tells, tells}
use flight_computer_test.Registry.{ProcessResult, ComponentEvent, EventKind}
use flight_computer_test.SdCard.Component.{
  State, announce_removal, waiting_for_removal, announce_insertion, waiting_for_insertion,
  initializing, writing, verifying, cleaning_up, complete, failed, Driver, SdCardTest,
  SdCardInformation, SdCardFailure, test_block_count, sd_card_test_start, next_block, await_card,
  stable_card_state, process_state, sd_card_test_process, after_block, sd_card_test_stop,
  failure_event, card_information_event, message, removed_event,
}
use flight_computer_test.SdCard.Driver as Driver
use flight_computer_test.SdCard.Driver.{
  SdCardDriver, Outcome, ◌>>=◌, pure, device_deselect, device_transfer,
}
use flight_computer_test.SdCard.Driver.Exchange.{deselect_card}
use flight_computer_test.SdCard.Driver.Blocks.{sd_card_driver, succeeds, sd_card_driver_shutdown}
use flight_computer_test.SdCard.Driver.Ensures.{Settles}
use flight_computer_test.SdCard.Driver.Bus.{
  Chip, Event, recorded, Orderly, idle, release, IsNamed, plain_within,
}
use flight_computer_test.SdCard.Driver.Promise.{
  Reports, IsKnown, initialize-Settles, write_test_block-Settles, verify_test_block-Settles,
  clear_test_block-Settles,
}
use flight_computer_test.SdCard.Driver.Duration.{Timed}
use flight_computer_test.SdCard.Driver.Duration.Waiting.{patience}
use flight_computer_test.SdCard.Driver.Duration.Ends.{Ends, initialize-Ends, operations-Ends}

-- The states in which the test works on an initialized card.
abbrev pub needs_device : State → Bool
needs_device writing = true
needs_device verifying = true
needs_device cleaning_up = true
needs_device _ = false

apart : true ≡ false → ⊥
apart e = cc

plain_facts :
    (n : ℕ) (text : Bytes)
    → plain_within n text ≡ true
    → (length text ≤ n) × (memchr text b'\n' ≡ false) × (memchr text b'\r' ≡ false)
unfolding memchr
plain_facts n [] e = (omega arith, refl, refl)
plain_facts zero (byte ∷ text) e = absurd (apart (sym e))
plain_facts (suc n) (byte ∷ text) e = ground (arith, plain_facts n text, e)

named-Tells : (text : Option Bytes) → IsNamed text → Tells text
named-Tells none plain = elim plain [ ]
named-Tells (some text) plain =
    let (short, no_newline, no_return) = plain_facts 48 text plain in
    tells text refl (record { short = short; no_newline = no_newline; no_return = no_return })

-- A failure that has a stage and a reason, if it is one.
abbrev pub Explained : EventKind → ComponentEvent → Type 0
Explained EventKind.failure event = Tells event.failure_stage × Tells event.failure_reason
Explained _ event = Unit

abbrev pub Explains : ProcessResult → ComponentEvent → Type 0
Explains ProcessResult.event event = Explained event.kind event
Explains _ event = Unit

module _ {K : Type 0} (chip : Chip K) where
  -- Between two calls of the test: the card is not selected, the bus was used in order, and the
  -- driver has its device if the test works on the card.
  pub record Rests (t : SdCardTest) (s : SdCardDriver (List Event × K)) : Type 0 where
    pub device : IsKnown chip s.device
    pub bus : Orderly false s.hardware.0
    pub ready : (needs_device t.state ≡ false) ⊎ (s.device ≡ some (recorded chip))

  -- After a call of the driver, by its result.
  abbrev pub Served : Bool → SdCardDriver (List Event × K) → Type 0
  Served true s = (s.device ≡ some (recorded chip)) × Orderly false s.hardware.0
  Served false s = Reports chip s

  pub served :
      (Q : Unit {0} → SdCardDriver (List Event × K) → Type 0) (ns : List Event × K → ℕ)
      (most before : ℕ) (r : Outcome (Unit {0}) × SdCardDriver (List Event × K))
      → ((a : Unit {0}) (s : SdCardDriver (List Event × K)) → Q a s → Served true s)
      → Settles Q (Reports chip) Unit r
      → Ends ns most before r
      → Served (succeeds r.0) r.1
  served Q ns most before (Driver.ok a, s) into q ends = into a s q
  served Q ns most before (Driver.failed, s) into q ends = q
  served Q ns most before (Driver.out_of_fuel, s) into q ends = elim ends [ ]

  abbrev pub Turn : ProcessResult × SdCardTest × SdCardDriver (List Event × K) → Type 0
  Turn (result, t, s) = Rests t s × Explains result t.latest_event

  pub if-Turn :
      (c : Bool) (a b : ProcessResult × SdCardTest × SdCardDriver (List Event × K))
      → Turn a
      → Turn b
      → Turn (if c then a else b)
  if-Turn true a b x y = x
  if-Turn false a b x y = y

module _ {K : Type 0} (chip : Chip K) (tick : List Event × K → ℕ) (inserted : List Event × K → Bool)
    (fuel : ℕ) where
  abbrev pub card_driver : Driver (SdCardDriver (List Event × K))
  card_driver = sd_card_driver tick fuel (some (recorded chip)) inserted

  -- A call that fails on a driver at rest, or whose failure the driver reports.
  failed-Turn :
      (t : SdCardTest) (s : SdCardDriver (List Event × K))
      → Reports chip s
      → Turn chip (
        ProcessResult.event,
        record t { latest_event = failure_event s.last_failure; state = failed },
        s,
      )
  unfolding failure_event
  failed-Turn t s h = (
    record { device = h.device; bus = h.bus; ready = inl refl },
    (named-Tells _ h.stage, named-Tells _ h.reason),
  )

  next-Turn :
      (next : State) (name : Bytes) (t : SdCardTest) (s : SdCardDriver (List Event × K))
      → s.device ≡ some (recorded chip)
      → Orderly false s.hardware.0
      → Turn chip (next_block card_driver next name t s)
  unfolding next_block card_information_event
  next-Turn next name t s d o =
      if-Turn chip (ltb (t.current_block + 1) test_block_count) _ _
        (record { device = inr d; bus = o; ready = inr d }, tt)
        (record { device = inr d; bus = o; ready = inr d }, tt)

  pub after_block-Turn :
      (next : State) (name : Bytes) (b : Bool) (i : SdCardInformation)
      (s : SdCardDriver (List Event × K)) (t : SdCardTest)
      → Served chip b s
      → Turn chip (after_block card_driver next name (b, i, s) t)
  unfolding sd_card_driver
  after_block-Turn next name true i s t (d, o) =
      next-Turn next name (record t { information = i }) s d o
  after_block-Turn next name false i s t h = failed-Turn (record t { information = i }) s h

  -- The driver has its device in the states that need it.
  pub working :
      (state : State) (t : SdCardTest) (s : SdCardDriver (List Event × K))
      → needs_device state ≡ true
      → t.state ≡ state
      → Rests chip t s
      → s.device ≡ some (recorded chip)
  working state t s needs e rests = elim rests.ready [
    | inl spared ↦ absurd (apart (sym needs ∙ ap needs_device (sym e) ∙ spared))
    | inr device ↦ device
  ]

  -- A card that was pulled out: the test fails, and the driver is not called.
  pub removed-Turn :
      (stage : Bytes) (block : ℕ) (t : SdCardTest) (s : SdCardDriver (List Event × K))
      → plain_within 48 stage ≡ true
      → Rests chip t s
      → Turn chip (
        ProcessResult.event,
        record t { latest_event = removed_event stage block; state = failed },
        s,
      )
  unfolding failure_event
  removed-Turn stage block t s plain h = (
    record { device = h.device; bus = h.bus; ready = inl refl },
    (named-Tells (some stage) plain, named-Tells (some (codes "card_removed")) refl),
  )

  polled-state :
      (in_place : Bool) (t : SdCardTest) (s : SdCardDriver (List Event × K))
      → (stable_card_state card_driver in_place t s).1.state ≡ t.state
  unfolding stable_card_state
  polled-state in_place t s = ground arith

  pub await-Turn :
      (in_place : Bool) (next : State) (name : Bytes) (t : SdCardTest)
      (s : SdCardDriver (List Event × K))
      → needs_device next ≡ false
      → Rests chip t s
      → Turn chip (await_card card_driver in_place next name t s)
  unfolding await_card message
  await-Turn in_place next name t s apart_from h =
      if-Turn chip (stable_card_state card_driver in_place t s).0 _ _
        (record { device = h.device; bus = h.bus; ready = inl apart_from }, tt)
        (
          record { device = h.device; bus = h.bus; ready = rw (polled-state in_place t s) h.ready },
          tt,
        )

  pub initialize-Turn :
      (b : Bool) (i : SdCardInformation) (t : SdCardTest) (s : SdCardDriver (List Event × K))
      → Served chip b s
      → Turn chip (
          if not b
          then (
            ProcessResult.event,
            record t {
              information = i;
              latest_event = failure_event s.last_failure;
              state = failed;
            },
            s,
          )
          else (
            ProcessResult.event,
            record t {
              state = writing;
              information = i;
              latest_event = card_information_event (codes "sd_card_initialized") i;
            },
            s,
          ))
  unfolding card_information_event
  initialize-Turn true i t s (d, o) = (record { device = inr d; bus = o; ready = inr d }, tt)
  initialize-Turn false i t s h = failed-Turn (record t { information = i }) s h
