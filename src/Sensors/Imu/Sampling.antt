-- ===== src/Sensors/Imu/Sampling.antt =====
-- How often the IMU test samples.
use flight_computer_test.Base.{
  ℕ, ◌+◌, ◌≤◌, ◌<◌, ◌≡◌, ◌⊎◌, inl, inr, refl, subst, Bool, true, false, List, [], ◌∷◌, arith,
  if◌then◌else◌,
}
use flight_computer_test.Registry.{ProcessResult, EventKind, imu_sample}
use flight_computer_test.SdCard.Component.{message}
use flight_computer_test.Sensors.Clock.{before-lt, clock_limit, Clocked, Spaced, Spaced-le}
use flight_computer_test.Sensors.Imu.{
  ImuState, initializing, sampling, failed, ImuDriver, ImuTest, bmi270_sample_interval_ms,
  imu_sample_event, bmi270_process_state, bmi270_test_process, bmi270_test_start,
}

-- Whether a call has reported a sample.
abbrev pub reports_sample : ProcessResult → EventKind → Bool
reports_sample ProcessResult.event imu_sample = true
reports_sample _ _ = false

-- The earliest time of the next sample, in a state that is seen at a time.
abbrev earliest : ImuState → ℕ → ℕ → ℕ
earliest initializing since next = since
earliest sampling since next = next
earliest failed since next = since

abbrev Planned : ImuState → ℕ → ImuTest → Type 0
Planned initializing since t = t.latest_event.kind ≡ EventKind.message
Planned sampling since t = t.next_sample_at ≤ since + bmi270_sample_interval_ms
Planned failed since t = Unit

-- What a call makes of the plan: it moves the next sample on, or it takes a sample that is due.
abbrev Keeps : ℕ → ℕ → ProcessResult → ImuTest → Type 0
Keeps due now result t =
    Planned t.state now t
    × (((reports_sample result t.latest_event.kind ≡ false)
          × (due ≤ earliest t.state now t.next_sample_at))
        ⊎ ((reports_sample result t.latest_event.kind ≡ true)
            × (due ≤ now)
            × (earliest t.state now t.next_sample_at ≡ now + bmi270_sample_interval_ms)))

module _ {H : Type 0} (driver : ImuDriver H) where
  -- The times of the calls that report a sample, of one call at each time.
  unfoldable pub imu_sample_times : List ℕ → ImuTest → H → List ℕ
  imu_sample_times [] t h = []
  imu_sample_times (now ∷ later) t h =
      let (result, t', h') = bmi270_test_process driver now t h in
      let rest = imu_sample_times later t' h' in
      if reports_sample result t'.latest_event.kind then now ∷ rest else rest

  process_state-Keeps :
      (state : ImuState) (since now : ℕ) (t : ImuTest) (h : H)
      → t.state ≡ state
      → since ≤ now
      → now < clock_limit
      → Planned state since t
      → let (result, t', _) = bmi270_process_state driver state now t h in
        Keeps (earliest state since t.next_sample_at) now result t'
  unfolding bmi270_process_state imu_sample_event
  process_state-Keeps initializing since now t h e l c p = ground (arith, e, p)
  process_state-Keeps sampling since now t h e l c p =
      ground (arith, e, p, before-lt now t.next_sample_at)
  process_state-Keeps failed since now t h e l c p = ground (arith, e, p)

  imu_sample_times-plan :
      (times : List ℕ) (since : ℕ) (t : ImuTest) (h : H)
      → Clocked since times
      → Planned t.state since t
      → Spaced bmi270_sample_interval_ms
          (earliest t.state since t.next_sample_at)
          (imu_sample_times times t h)
  unfolding imu_sample_times bmi270_test_process
  imu_sample_times-plan [] since t h c p = tt
  imu_sample_times-plan (now ∷ later) since t h c p =
      let (planned, moved) = process_state-Keeps t.state since now t h refl c.0 c.1 p in
      let step = bmi270_process_state driver t.state now t h in
      let rest = imu_sample_times-plan later now step.1 step.2 c.2 planned in
      elim moved [
        | inl (none_taken, e) ↦
            rw none_taken (
              Spaced-le bmi270_sample_interval_ms _ _ (imu_sample_times later step.1 step.2) e rest)
        | inr (taken, due, e) ↦ rw taken (
          due,
          subst (λ n. Spaced bmi270_sample_interval_ms n (imu_sample_times later step.1 step.2)) e
              rest,
        )
      ]

  -- From a start of the IMU test at a time on, and while the clock has not reached half of its range:
  -- no sample is reported before the start, and each but the first no earlier than 100 ms behind the one before it, whatever
  -- the driver answers.
  pub imu_sample_times-Spaced :
      (times : List ℕ) (since : ℕ) (t : ImuTest) (h : H)
      → Clocked since times
      → Spaced bmi270_sample_interval_ms since (imu_sample_times times (bmi270_test_start t) h)
  unfolding bmi270_test_start message
  imu_sample_times-Spaced times since t h c = imu_sample_times-plan times since _ h c refl
