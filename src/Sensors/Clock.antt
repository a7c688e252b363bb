-- ===== src/Sensors/Clock.antt =====
-- The millisecond clock, and points in time that keep a distance.
use flight_computer_test.Base.{
  ℕ, ◌+◌, ◌-◌, ◌%◌, ◌^◌, ◌≤◌, ◌<◌, ◌≡◌, Bool, false, List, [], ◌∷◌, leb, arith,
}

-- (int32_t)(now - deadline) < 0
unfoldable pub before : ℕ → ℕ → Bool
before now deadline = leb (2 ^ 31) ((now + 2 ^ 32 - deadline) % 2 ^ 32)

-- The times that the theorems speak of: the clock has not reached half of its range.
abbrev pub clock_limit : ℕ
clock_limit = 2 ^ 31 - 2000

-- A clock that does not go back, from a time on.
abbrev pub Clocked : ℕ → List ℕ → Type 0
Clocked since [] = Unit
Clocked since (now ∷ later) = (since ≤ now) × (now < clock_limit) × Clocked now later

-- Points in time from the earliest on, each a gap behind the one before it.
abbrev pub Spaced : ℕ → ℕ → List ℕ → Type 0
Spaced gap earliest [] = Unit
Spaced gap earliest (time ∷ times) = (earliest ≤ time) × Spaced gap (time + gap) times

pub before-lt :
    (now deadline : ℕ)
    → now < 2 ^ 31
    → deadline < 2 ^ 31
    → before now deadline ≡ false
    → deadline ≤ now
unfolding before
before-lt now deadline n d h = ground (arith, n, d, h)

pub Spaced-le :
    (gap early late : ℕ) (times : List ℕ)
    → early ≤ late
    → Spaced gap late times
    → Spaced gap early times
Spaced-le gap early late [] l s = tt
Spaced-le gap early late (time ∷ times) l s = (omega (arith, s.0), s.1)
