-- ===== src/Sensors/Barometer/Pace.antt =====
-- How often the barometer test samples, and that it never decides by itself that a board is good.
use flight_computer_test.Base.{
  ℕ, ◌+◌, ◌≤◌, ◌<◌, ◌≡◌, ◌≢◌, ◌⊎◌, inl, inr, refl, subst, Bool, true, false, List, [], ◌∷◌, arith,
  if◌then◌else◌,
}
use flight_computer_test.Registry.{ProcessResult, EventKind, barometer_sample}
use flight_computer_test.SdCard.Component.{message}
use flight_computer_test.Sensors.Clock.{before-lt, clock_limit, Clocked, Spaced, Spaced-le}
use flight_computer_test.Sensors.Barometer.{
  BarometerState, initializing, settling, sampling, failed, BarometerDriver, BarometerTest,
  bmp388_sample_interval_ms, bmp388_settling_time_ms, driver_failure, sample_event,
  report_driver_failure, bmp388_process_state, bmp388_test_process, bmp388_test_start,
}

-- Whether a call has reported a sample.
abbrev pub reports_sample : ProcessResult → EventKind → Bool
reports_sample ProcessResult.event barometer_sample = true
reports_sample _ _ = false

-- The earliest time of the next sample, in a state that is seen at a time.
abbrev earliest : BarometerState → ℕ → ℕ → ℕ
earliest initializing since next = since + bmp388_settling_time_ms
earliest settling since next = next
earliest sampling since next = next
earliest failed since next = since + bmp388_settling_time_ms

abbrev Planned : BarometerState → ℕ → ℕ → Type 0
Planned initializing since next = Unit
Planned settling since next = next ≤ since + bmp388_settling_time_ms
Planned sampling since next = next ≤ since + bmp388_settling_time_ms
Planned failed since next = Unit

-- What a call makes of the plan: it moves the next sample on, or it takes a sample that is due.
abbrev Keeps : ℕ → ℕ → ProcessResult → BarometerTest → Type 0
Keeps due now result t =
    Planned t.state now t.next_sample_at
    × (((reports_sample result t.latest_event.kind ≡ false)
          × (due ≤ earliest t.state now t.next_sample_at))
        ⊎ ((reports_sample result t.latest_event.kind ≡ true)
            × (due ≤ now)
            × (earliest t.state now t.next_sample_at ≡ now + bmp388_sample_interval_ms)))

module _ {H : Type 0} (driver : BarometerDriver H) where
  -- The times of the calls that report a sample, of one call at each time.
  unfoldable pub sample_times : List ℕ → BarometerTest → H → List ℕ
  sample_times [] t h = []
  sample_times (now ∷ later) t h =
      let (result, t', h') = bmp388_test_process driver now t h in
      let rest = sample_times later t' h' in
      if reports_sample result t'.latest_event.kind then now ∷ rest else rest

  process_state-Keeps :
      (state : BarometerState) (since now : ℕ) (t : BarometerTest) (h : H)
      → t.state ≡ state
      → since ≤ now
      → now < clock_limit
      → Planned state since t.next_sample_at
      → let (result, t', _) = bmp388_process_state driver state now t h in
        Keeps (earliest state since t.next_sample_at) now result t'
  unfolding bmp388_process_state report_driver_failure driver_failure message sample_event
  process_state-Keeps initializing since now t h e l c p = ground (arith, e, p)
  process_state-Keeps settling since now t h e l c p =
      ground (arith, e, p, before-lt now t.next_sample_at)
  process_state-Keeps sampling since now t h e l c p =
      ground (arith, e, p, before-lt now t.next_sample_at)
  process_state-Keeps failed since now t h e l c p = ground (arith, e, p)

  sample_times-plan :
      (times : List ℕ) (since : ℕ) (t : BarometerTest) (h : H)
      → Clocked since times
      → Planned t.state since t.next_sample_at
      → Spaced bmp388_sample_interval_ms
          (earliest t.state since t.next_sample_at)
          (sample_times times t h)
  unfolding sample_times bmp388_test_process
  sample_times-plan [] since t h c p = tt
  sample_times-plan (now ∷ later) since t h c p =
      let (planned, moved) = process_state-Keeps t.state since now t h refl c.0 c.1 p in
      let step = bmp388_process_state driver t.state now t h in
      let rest = sample_times-plan later now step.1 step.2 c.2 planned in
      elim moved [
        | inl (none_taken, e) ↦
            rw none_taken
              (Spaced-le bmp388_sample_interval_ms _ _ (sample_times later step.1 step.2) e rest)
        | inr (taken, due, e) ↦ rw taken (
          due,
          subst (λ n. Spaced bmp388_sample_interval_ms n (sample_times later step.1 step.2)) e rest,
        )
      ]

  -- From a start of the barometer test at a time on, and while the clock has not reached half of its
  -- range: the first sample is reported no earlier than two seconds later, and each further one no
  -- earlier than 200 ms behind the one before it, whatever the driver answers.
  pub sample_times-Spaced :
      (times : List ℕ) (since : ℕ) (t : BarometerTest) (h : H)
      → Clocked since times
      → Spaced bmp388_sample_interval_ms
          (since + bmp388_settling_time_ms)
          (sample_times times (bmp388_test_start t) h)
  unfolding bmp388_test_start
  sample_times-Spaced times since t h c = sample_times-plan times since _ h c tt

  -- What a call in a state may answer.
  abbrev pub Verdict :
      BarometerState → BarometerTest → H → ProcessResult → BarometerTest → H → Type 0
  Verdict state t h result t' h' =
      (result ≢ ProcessResult.passed)
      × (((state ≡ failed) × (result ≡ ProcessResult.failed) × (t' ≡ t) × (h' ≡ h))
          ⊎ ((state ≢ failed)
              × (result ≢ ProcessResult.failed)
              × ((t'.state ≢ failed)
                  ⊎ ((result ≡ ProcessResult.event)
                      × (t'.latest_event ≡ driver_failure (driver.last_failure h'))))))

  process_state-Verdict :
      (state : BarometerState) (now : ℕ) (t : BarometerTest) (h : H)
      → t.state ≡ state
      → let (result, t', h') = bmp388_process_state driver state now t h in
        Verdict state t h result t' h'
  unfolding bmp388_process_state report_driver_failure
  process_state-Verdict initializing now t h e = ground (arith, e)
  process_state-Verdict settling now t h e = ground (arith, e)
  process_state-Verdict sampling now t h e = ground (arith, e)
  process_state-Verdict failed now t h e = ground (arith, e)

  -- The barometer test never passes by itself: the operator decides. It fails exactly in its last
  -- state, in which nothing changes any more, and it enters that state with an event that reports
  -- the driver's failure.
  pub bmp388_test_process-Verdict :
      (now : ℕ) (t : BarometerTest) (h : H)
      → let (result, t', h') = bmp388_test_process driver now t h in
        Verdict t.state t h result t' h'
  unfolding bmp388_test_process
  bmp388_test_process-Verdict now t h = process_state-Verdict t.state now t h refl
