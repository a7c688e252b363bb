-- ===== src/SdCard/Driver/Duration/Waiting.antt =====
-- firmware/manufacturing_test/drivers/sd_card/sd_card_driver.c: a loop that waits with a timeout ends, if
-- each pass takes some time.
use flight_computer_test.Base.{
  ℕ, zero, suc, ◌+◌, ◌-◌, ◌*◌, ◌/◌, ◌%◌, ◌^◌, ◌≤◌, ◌<◌, Bool, true, ◌≡◌, subst, sym, ◌⊎◌, inl, inr,
  some, ltb, ltb→lt, arith,
}
use flight_computer_test.Spi.{SpiDevice}
use flight_computer_test.SdCard.Driver.{
  SdCardDriver, Outcome, ok, failed, out_of_fuel, Action, gets, continue, ◌>>=◌,
}
use flight_computer_test.SdCard.Driver.Exchange.{within}
use flight_computer_test.SdCard.Driver.Duration.{Timed, InTime, Lasts, InTime-wider}

-- A tick that is within a timeout of an earlier one, when not much more time has gone by.
within-early :
    (start now timeout : ℕ)
    → start ≤ now
    → now ≤ start + 2000000000000000
    → timeout ≤ 1000
    → ltb ((now / 1000000 % 2 ^ 32 + 2 ^ 32 - start / 1000000 % 2 ^ 32) % 2 ^ 32) timeout ≡ true
    → now < start + (timeout + 1) * 1000000
within-early start now timeout a b c h = let lt = ltb→lt _ timeout h in omega arith

-- The time that a wait may take before its last pass, in nanoseconds.
abbrev pub patience : ℕ → ℕ
patience timeout = (timeout + 1) * 1000000

-- A loop whose passes are `body`, and then `next` with the value, whether the time is not over, and
-- the rest of the loop. Either it stops there, or it goes on because the time is not over.
module _ {H X A : Type 0} {device : SpiDevice H} {tick ns : H → ℕ} {step : ℕ}
    (timed : Timed device tick ns step) (timeout start most : ℕ) (body : Action H X)
    (next : X → Bool → Action H A → Action H A) (loop : ℕ → Action H A)
    (body-Lasts : Lasts device ns 1 most body)
    (choice : (x : X) (more : Bool) (rest : Action H A)
      → Lasts device ns 0 0 (next x more rest) ⊎ ((more ≡ true) × (next x more rest ≡ rest)))
    (passes : (n : ℕ)
      → loop (suc n) ≡ (
          body >>= λ x. gets (within tick (start / 1000000 % 2 ^ 32) timeout) >>= λ more.
          next x more (loop n))) where
  abbrev EndsInTime : ℕ → Type 0
  EndsInTime fuel =
      (s : SdCardDriver H)
      → s.device ≡ some device
      → start ≤ ns s.hardware
      → ns s.hardware ≤ start + patience timeout
      → start + patience timeout < ns s.hardware + fuel
      → InTime device ns 0 (patience timeout + most) start (loop fuel s)

  after_pass :
      (fuel now : ℕ)
      → timeout ≤ 1000
      → most ≤ 1000000000000000
      → EndsInTime fuel
      → start ≤ now
      → now ≤ start + patience timeout
      → start + patience timeout < now + suc fuel
      → (r : Outcome X × SdCardDriver H) → InTime device ns 1 most now r
      → InTime device ns 0 (patience timeout + most) start (
          continue r (λ x. gets (within tick (start / 1000000 % 2 ^ 32) timeout) >>= λ more.
          next x more (loop fuel)))
  unfolding ◌>>=◌ gets within
  after_pass fuel now small short ih a b c (ok x, s) (d, (l, m)) =
      elim (choice x (within tick (start / 1000000 % 2 ^ 32) timeout s) (loop fuel)) [
        | inl ends ↦
            InTime-wider device ns 0 0 (patience timeout + most) 0 start (ns s.hardware)
              (next x (within tick (start / 1000000 % 2 ^ 32) timeout s) (loop fuel) s)
              (omega arith) (omega arith) (omega arith) (ends.in_time s d)
        | inr (e, same) ↦
            let in_ticks =
              subst (λ t. ltb ((t + 2 ^ 32 - start / 1000000 % 2 ^ 32) % 2 ^ 32) timeout ≡ true)
                (timed.ticks s.hardware) e in
            let early =
              within-early start (ns s.hardware) timeout (omega arith) (omega arith) small
                in_ticks in
            subst (λ o. InTime device ns 0 (patience timeout + most) start (o s)) (sym same)
              (ih s d (omega arith) (omega (arith, early)) (omega arith))
      ]
  after_pass fuel now small short ih a b c (failed, s) (d, (l, m)) = (d, (omega arith, omega arith))
  after_pass fuel now small short ih a b c (out_of_fuel, s) e = elim e [ ]

  late :
      (now : ℕ)
      → start ≤ now
      → now ≤ start + patience timeout
      → start + patience timeout < now + 0
      → ⊥
  late now a b c = omega arith

  one_pass :
      (fuel : ℕ)
      → timeout ≤ 1000
      → most ≤ 1000000000000000
      → EndsInTime fuel
      → EndsInTime (suc fuel)
  unfolding ◌>>=◌
  one_pass fuel small short ih s d a b c =
      subst (λ o. InTime device ns 0 (patience timeout + most) start (o s)) (sym (passes fuel))
        (after_pass fuel (ns s.hardware) small short ih a b c (body s) (body-Lasts.in_time s d))

  pub loop-InTime : (fuel : ℕ) → timeout ≤ 1000 → most ≤ 1000000000000000 → EndsInTime fuel
  loop-InTime zero small short = λ s d a b c. elim (late (ns s.hardware) a b c) [ ]
  loop-InTime (suc fuel) small short = one_pass fuel small short (loop-InTime fuel small short)

-- A wait: the tick is read, and then its loop runs, with more fuel than the timeout has nanoseconds.
pub wait-Lasts :
    {H X A : Type 0} {device : SpiDevice H} {tick ns : H → ℕ} {step : ℕ}
    → Timed device tick ns step
    → (timeout most fuel : ℕ) (body : Action H X) (next : X → Bool → Action H A → Action H A)
      (loop : ℕ → ℕ → Action H A)
    → timeout ≤ 1000
    → most ≤ 1000000000000000
    → patience timeout < fuel
    → Lasts device ns 1 most body
    → ((x : X) (more : Bool) (rest : Action H A)
        → Lasts device ns 0 0 (next x more rest) ⊎ ((more ≡ true) × (next x more rest ≡ rest)))
    → ((started n : ℕ)
        → loop started (suc n) ≡ (
            body >>= λ x.
            gets (within tick started timeout) >>= λ more. next x more (loop started n)))
    → Lasts device ns 0
        (patience timeout + most)
        (gets (λ s. tick s.hardware) >>= λ started. loop started fuel)
unfolding ◌>>=◌ gets
wait-Lasts {device = device} {tick = tick} {ns = ns} timed timeout most fuel body next loop small
      short enough lasts choice passes =
    record {
      in_time = λ s d.
          subst (λ t. InTime device ns 0 (patience timeout + most) (ns s.hardware) (loop t fuel s))
            (sym (timed.ticks s.hardware))
            (loop-InTime timed timeout (ns s.hardware) most body next
              (loop (ns s.hardware / 1000000 % 2 ^ 32)) lasts choice
              (passes (ns s.hardware / 1000000 % 2 ^ 32)) fuel small short s d (omega arith)
              (omega arith) (omega arith));
    }
