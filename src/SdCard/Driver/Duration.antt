-- ===== src/SdCard/Driver/Duration.antt =====
-- firmware/manufacturing_test/drivers/sd_card/sd_card_driver.c: how long an action lasts, where the calls
-- of the device take some time and HAL_GetTick counts it.
pub mod Waiting
pub mod Transfers
pub mod Initialize
pub mod Blocks
pub mod Ends
use flight_computer_test.Base.{
  ℕ, zero, suc, ◌+◌, ◌*◌, ◌/◌, ◌%◌, ◌^◌, ◌≤◌, Bool, true, false, ◌≡◌, refl, ap, ◌∙◌, Option-cases,
  inl, inr, subst, sym, Option, none, some, ◌∷◌, [], Bytes, if◌then◌else◌, arith,
}
use flight_computer_test.Base.Int.{ℤ}
use flight_computer_test.Spi.{
  SpiDevice, spi_device_initialize, spi_device_select, spi_device_deselect, spi_device_transfer,
  spi_device_set_prescaler,
}
use flight_computer_test.SdCard.Driver.{
  SdCardDriver, Outcome, ok, failed, out_of_fuel, Action, pure, gets, give_up, modify, continue,
  ◌>>=◌, require, require_some, begin_stage, fail, fail_if_unset, device_initialize, device_select,
  device_deselect, device_transfer, device_set_prescaler,
}

-- A call that leaves the hardware at a later time, by a step at most.
abbrev pub Takes : ℕ → ℕ → ℕ → ℕ → Type 0
Takes least most before after = (before + least ≤ after) × (after ≤ before + most)

-- A device, the clock of the board in milliseconds, and a time in nanoseconds behind it: a transfer
-- takes one nanosecond at least, and no call of the device more than `step`, which is below 1000 s.
pub record Timed {H : Type 0} (device : SpiDevice H) (tick : H → ℕ) (ns : H → ℕ) (step : ℕ)
    : Type 0 where
  pub ticks : (h : H) → tick h ≡ ns h / 1000000 % 2 ^ 32
  pub short : step ≤ 1000000000000
  pub initializes : (h : H) → Takes 0 step (ns h) (ns (spi_device_initialize (some device) h).1)
  pub selects : (h : H) → Takes 0 step (ns h) (ns (spi_device_select (some device) h).1)
  pub deselects : (h : H) → Takes 0 step (ns h) (ns (spi_device_deselect (some device) h))
  pub transfers :
      (tx : Bytes) (h : H) → Takes 1 step (ns h) (ns (spi_device_transfer (some device) tx h).1)
  pub prescales :
      (p : ℕ) (h : H) → Takes 0 step (ns h) (ns (spi_device_set_prescaler (some device) p h).1)

module _ {H : Type 0} (device : SpiDevice H) (ns : H → ℕ) where
  -- The device is known, and the time is within bounds after another.
  abbrev pub Elapsed : ℕ → ℕ → ℕ → SdCardDriver H → Type 0
  Elapsed least most before s = (s.device ≡ some device) × Takes least most before (ns s.hardware)

  -- An outcome with fuel left, within the time; the least time counts for a success alone.
  abbrev pub InTime : {A : Type 0} → ℕ → ℕ → ℕ → Outcome A × SdCardDriver H → Type 0
  InTime least most before (ok a, s) = Elapsed least most before s
  InTime least most before (failed, s) = Elapsed 0 most before s
  InTime least most before (out_of_fuel, s) = ⊥

  pub record Lasts {A : Type 0} (least most : ℕ) (m : Action H A) : Type 0 where
    pub in_time :
        (s : SdCardDriver H) → s.device ≡ some device → InTime least most (ns s.hardware) (m s)

  -- Wider bounds, and from an earlier time.
  pub InTime-wider :
      {A : Type 0} (least least' most most' before before' : ℕ) (r : Outcome A × SdCardDriver H)
      → before + least ≤ before' + least'
      → before ≤ before'
      → before' + most' ≤ before + most
      → InTime least' most' before' r
      → InTime least most before r
  InTime-wider least least' most most' before before' (ok a, s) a1 a2 a3 (d, (l, m)) =
      (d, (omega arith, omega arith))
  InTime-wider least least' most most' before before' (failed, s) a1 a2 a3 (d, (l, m)) =
      (d, (omega arith, omega arith))
  InTime-wider least least' most most' before before' (out_of_fuel, s) a1 a2 a3 e = elim e [ ]

  InTime-continue :
      {A B : Type 0} (least most least' most' before : ℕ) {f : A → Action H B}
      → ((a : A) → Lasts least' most' (f a))
      → (r : Outcome A × SdCardDriver H) → InTime least most before r
      → InTime (least + least') (most + most') before (continue r f)
  InTime-continue least most least' most' before {f = f} g (ok a, s) (d, (l, m)) =
      InTime-wider (least + least') least' (most + most') most' before (ns s.hardware) (f a s)
        (omega arith) (omega arith) (omega arith) ((g a).in_time s d)
  InTime-continue least most least' most' before g (failed, s) (d, (l, m)) =
      (d, (omega arith, omega arith))
  InTime-continue least most least' most' before g (out_of_fuel, s) e = elim e [ ]

module _ {H : Type 0} {device : SpiDevice H} {ns : H → ℕ} where
  infixr 4 ◌▶◌
  pub ◌▶◌ :
      {A B : Type 0} {least most least' most' : ℕ} {m : Action H A} {f : A → Action H B}
      → Lasts device ns least most m
      → ((a : A) → Lasts device ns least' most' (f a))
      → Lasts device ns (least + least') (most + most') (m >>= f)
  unfolding ◌>>=◌
  ◌▶◌ {least = least} {most = most} {least' = least'} {most' = most'} {m = m} h g = record {
    in_time = λ s d.
        InTime-continue device ns least most least' most' (ns s.hardware) g (m s) (h.in_time s d);
  }

  pub Lasts-wider :
      {A : Type 0} {least most least' most' : ℕ} {m : Action H A}
      → least ≤ least'
      → most' ≤ most
      → Lasts device ns least' most' m
      → Lasts device ns least most m
  Lasts-wider {least = least} {most = most} {least' = least'} {most' = most'} {m = m} l u h =
      record {
        in_time = λ s d.
            InTime-wider device ns least least' most most' (ns s.hardware) (ns s.hardware) (m s)
              (omega arith) (omega arith) (omega arith) (h.in_time s d);
      }

  pub pure-Lasts : {A : Type 0} (a : A) → Lasts device ns 0 0 (pure a)
  unfolding pure
  pure-Lasts a = record { in_time = λ s d. (d, (omega arith, omega arith)) }

  pub gets-Lasts : {A : Type 0} (f : SdCardDriver H → A) → Lasts device ns 0 0 (gets f)
  unfolding gets
  gets-Lasts f = record { in_time = λ s d. (d, (omega arith, omega arith)) }

  pub give_up-Lasts : {A : Type 0} (least : ℕ) → Lasts device ns least 0 (give_up {A = A})
  unfolding give_up
  give_up-Lasts least = record { in_time = λ s d. (d, (omega arith, omega arith)) }

  -- A change of the statics keeps the device and the hardware.
  pub modify-Lasts :
      (f : SdCardDriver H → SdCardDriver H)
      → ((s : SdCardDriver H) → ((f s).device ≡ s.device) × ((f s).hardware ≡ s.hardware))
      → Lasts device ns 0 0 (modify f)
  unfolding modify
  modify-Lasts f same = record {
    in_time = λ s d. ((same s).0 ∙ d, rw ((same s).1) (omega arith, omega arith));
  }

  pub begin_stage-Lasts : (stage : Bytes) → Lasts device ns 0 0 (begin_stage stage)
  unfolding begin_stage
  begin_stage-Lasts stage = record { in_time = λ s d. (d, (omega arith, omega arith)) }

  pub fail-Lasts :
      {A : Type 0} (reason : Bytes) (code : ℤ) → Lasts device ns 0 0 (fail {A = A} reason code)
  unfolding fail
  fail-Lasts reason code = record { in_time = λ s d. (d, (omega arith, omega arith)) }

  pub fail_if_unset-Lasts :
      {A : Type 0} (reason : Bytes) (code : ℤ)
      → Lasts device ns 0 0 (fail_if_unset {A = A} reason code)
  unfolding fail_if_unset fail
  fail_if_unset-Lasts reason code = record {
    in_time = λ s d. elim (Option-cases s.last_failure.reason) [
      | inl e ↦ rw e (d, (omega arith, omega arith))
      | inr (x, e) ↦ rw e (d, (omega arith, omega arith))
    ];
  }

  pub if-Lasts :
      {A : Type 0} {least most : ℕ} (b : Bool) {m n : Action H A}
      → Lasts device ns least most m
      → Lasts device ns least most n
      → Lasts device ns least most (if b then m else n)
  if-Lasts true h g = h
  if-Lasts false h g = g

  pub require-Lasts :
      {most : ℕ} (b : Bool) {m : Action H (Unit {0})}
      → Lasts device ns 0 most m
      → Lasts device ns 0 most (require b m)
  unfolding require
  require-Lasts true h = Lasts-wider (omega arith) (omega arith) (pure-Lasts tt)
  require-Lasts false h = h

  pub require_some-Lasts :
      {A : Type 0} {most : ℕ} (o : Option A) {m : Action H A}
      → Lasts device ns 0 most m
      → Lasts device ns 0 most (require_some o m)
  unfolding require_some
  require_some-Lasts none h = h
  require_some-Lasts (some a) h = Lasts-wider (omega arith) (omega arith) (pure-Lasts a)

-- The calls of a device that takes time.
module _ {H : Type 0} {device : SpiDevice H} {tick ns : H → ℕ} {step : ℕ}
    (timed : Timed device tick ns step) where
  pub transfer-Lasts : (tx : Bytes) → Lasts device ns 1 step (device_transfer tx)
  unfolding device_transfer
  transfer-Lasts tx = record {
    in_time = λ s d. (
      d,
      subst (λ o. Takes 1 step (ns s.hardware) (ns (spi_device_transfer o tx s.hardware).1)) (sym d)
          (timed.transfers tx s.hardware),
    );
  }

  pub select-Lasts : Lasts device ns 0 step device_select
  unfolding device_select
  select-Lasts = record { in_time = λ s d. (d, rw d (timed.selects s.hardware)) }

  pub deselect-Lasts : Lasts device ns 0 step device_deselect
  unfolding device_deselect
  deselect-Lasts = record { in_time = λ s d. (d, rw d (timed.deselects s.hardware)) }

  pub initialize-Lasts : Lasts device ns 0 step device_initialize
  unfolding device_initialize
  initialize-Lasts = record { in_time = λ s d. (d, rw d (timed.initializes s.hardware)) }

  pub set_prescaler-Lasts : (p : ℕ) → Lasts device ns 0 step (device_set_prescaler p)
  unfolding device_set_prescaler
  set_prescaler-Lasts p = record { in_time = λ s d. (d, rw d (timed.prescales p s.hardware)) }
