-- ===== src/Examples/Sensors.antt =====
-- The sensor tests' theorems on drivers that succeed and that fail.
use flight_computer_test.Base.{ℕ, ◌+◌, true, false, none, some, List, [], ◌∷◌, arith}
use flight_computer_test.Base.Int.{pos}
use flight_computer_test.SdCard.Component.{blank_event}
use flight_computer_test.Sensors.Clock.{Spaced}
use flight_computer_test.Sensors.Barometer.{
  BarometerState, BarometerDriver, BarometerTest, bmp388_test_start, bmp388_test_process,
}
use flight_computer_test.Sensors.Barometer.Pace.{
  sample_times, sample_times-Spaced, Verdict, bmp388_test_process-Verdict,
}

-- A barometer that answers the number of the sample; the world counts the samples.
abbrev barometer : BarometerDriver ℕ
barometer = record {
  initialize = λ w. (true, w);
  read_sample =
      λ w. (some (record { pressure_centi_pa = pos w; temperature_centi_c = pos 2100 }), w + 1);
  shutdown = λ w. w;
  last_failure = λ _. record { stage = none; reason = none; code = pos 0 };
}

abbrev at_rest : BarometerTest
at_rest = record { state = BarometerState.failed; next_sample_at = 0; latest_event = blank_event }

abbrev times : List ℕ
times = 10 ∷ 1000 ∷ 2010 ∷ 2011 ∷ 2100 ∷ 2300 ∷ []

sample_times-Spaced_example :
    Spaced 200 2010 (sample_times barometer times (bmp388_test_start at_rest) 0)
sample_times-Spaced_example = sample_times-Spaced barometer times 10 at_rest 0 (ground arith)

-- A barometer that does not start.
abbrev broken : BarometerDriver ℕ
broken = record barometer { initialize = λ w. (false, w) }

bmp388_test_process-Verdict_example :
    let (result, t', h') = bmp388_test_process broken 5 at_rest 0 in
    Verdict broken BarometerState.failed at_rest 0 result t' h'
bmp388_test_process-Verdict_example = bmp388_test_process-Verdict broken 5 at_rest 0
