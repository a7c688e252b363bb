-- ===== src/Runner/Lifecycle.antt =====
-- The life of component tests: started, worked on, stopped, and never two at once.
use flight_computer_test.Base.{
  ℕ, ◌≡◌, ◌≢◌, ◌⊎◌, inl, inr, refl, sym, subst, true, false, Option, none, some, List, [], ◌∷◌,
  Bytes, arith, ℕ_discrete,
}
use flight_computer_test.Registry.{ProcessResult, Parameters, Definition}
use flight_computer_test.Runner.{Runner, idle, initialize, start, process, stop, state, active_type}

module _ {W : Type 0} where
  -- A runner is free, or has a test and the nonzero id of the command that started it.
  abbrev pub IsValid : Runner W → Type 0
  IsValid runner =
      ((runner.active_definition ≡ none) × (runner.active_command_id ≡ 0))
      ⊎ ((d : Definition W) × (runner.active_definition ≡ some d) × (runner.active_command_id ≢ 0))

  pub start-IsValid :
      (runner : Runner W) (definition : Option (Definition W)) (command_id : ℕ) (p : Parameters)
      (w : W)
      → IsValid runner
      → IsValid (start runner definition command_id p w).1
  unfolding start
  start-IsValid runner none command_id p w v = v
  start-IsValid runner (some d) command_id p w (inl (a, i)) = elim (ℕ_discrete command_id 0) [
    | yes e ↦ inl (ground arith, ground arith)
    | no e ↦ inr (d, ground arith, ground arith)
  ]
  start-IsValid runner (some d) command_id p w (inr (x, a, i)) = inr (x, ground arith, ground arith)

  pub process-IsValid : (runner : Runner W) (w : W) → IsValid runner → IsValid (process runner w).1
  unfolding process initialize
  process-IsValid runner w v = ground arith

  pub stop-IsValid : (runner : Runner W) (w : W) → IsValid runner → IsValid (stop runner w).1
  unfolding stop initialize
  stop-IsValid runner w v = ground arith

  -- A test is started exactly when the runner is free and the command id is not 0; then the test's
  -- own function has run on the parameters and the test is the active one, and otherwise nothing
  -- has changed.
  pub start_lem :
      (runner : Runner W) (d : Definition W) (command_id : ℕ) (p : Parameters) (w : W)
      → let (started, runner', w') = start runner (some d) command_id p w in
        ((started ≡ true)
          × (runner.active_definition ≡ none)
          × (command_id ≢ 0)
          × (runner'.active_definition ≡ some d)
          × (runner'.active_command_id ≡ command_id)
          × (w' ≡ d.start p w))
        ⊎ ((started ≡ false)
            × ((state runner ≢ idle) ⊎ (command_id ≡ 0))
            × (runner' ≡ runner)
            × (w' ≡ w))
  unfolding start state
  start_lem runner d command_id p w = ground arith

-- The calls of a test's functions, by the test's type.
pub data Call : Type 0 where
  started : Bytes → Parameters → Call
  processed : Bytes → Call
  stopped : Bytes → Call

-- The lives of tests, latest call first: `Lives t log` if the test `t` is alive after `log`.
pub data Lives : Option Bytes → List Call → Type 0 where
  nobody : Lives none []
  begin :
      {log : List Call} (type : Bytes) (p : Parameters)
      → Lives none log
      → Lives (some type) (started type p ∷ log)
  work :
      {log : List Call} (type : Bytes)
      → Lives (some type) log
      → Lives (some type) (processed type ∷ log)
  finish :
      {log : List Call} (type : Bytes) → Lives (some type) log → Lives none (stopped type ∷ log)

-- A test that only records its calls; `answer` says what its process function returns.
abbrev pub recording : Bytes → (List Call → ProcessResult) → Definition (List Call)
recording type answer = record {
  type = type;
  start = λ p log. started type p ∷ log;
  process = λ log. (answer log, processed type ∷ log);
  event = none;
  stop = λ log. stopped type ∷ log;
}

-- What the session may ask of the runner.
pub data Request : Type 0 where
  run : Bytes → (List Call → ProcessResult) → ℕ → Parameters → Request
  service : Request
  cancel : Request

unfoldable pub perform : Request → Runner (List Call) × List Call → Runner (List Call) × List Call
perform (run type answer id p) (runner, log) =
    let (_, runner', log') = start runner (some (recording type answer)) id p log in (runner', log')
perform service (runner, log) = let (_, runner', log') = process runner log in (runner', log')
perform cancel (runner, log) = let (_, runner', log') = stop runner log in (runner', log')

unfoldable pub perform_all :
    List Request → Runner (List Call) × List Call → Runner (List Call) × List Call
perform_all [] s = s
perform_all (r ∷ rs) s = perform_all rs (perform r s)

-- The runner's active test is a recording one, and it is the one that is alive.
data Matches (runner : Runner (List Call)) (log : List Call) : Type 0 where
  free : runner.active_definition ≡ none → Lives none log → Matches runner log
  busy :
      (type : Bytes) (answer : List Call → ProcessResult)
      → runner.active_definition ≡ some (recording type answer)
      → Lives (some type) log
      → Matches runner log

-- The log after a call.
Matches-free :
    (runner : Runner (List Call)) {log log' : List Call}
    → runner.active_definition ≡ none
    → log' ≡ log
    → Lives none log
    → Matches runner log'
Matches-free runner e same l = free e (subst (Lives none) (sym same) l)

Matches-busy :
    (runner : Runner (List Call)) (type : Bytes) (answer : List Call → ProcessResult)
    {log log' : List Call}
    → runner.active_definition ≡ some (recording type answer)
    → log' ≡ log
    → Lives (some type) log
    → Matches runner log'
Matches-busy runner type answer e same l =
    busy type answer e (subst (Lives (some type)) (sym same) l)

-- A round of the active test, by what its process function answers.
service-Matches :
    (result : ProcessResult) (runner : Runner (List Call)) (log : List Call) (type : Bytes)
    (answer : List Call → ProcessResult)
    → answer log ≡ result
    → runner.active_definition ≡ some (recording type answer)
    → Lives (some type) log
    → Matches (process runner log).1 (process runner log).2
unfolding process initialize
service-Matches ProcessResult.running runner log type answer r e l =
    Matches-busy _ type answer (ground arith) (ground arith) (work type l)
service-Matches ProcessResult.event runner log type answer r e l =
    Matches-busy _ type answer (ground arith) (ground arith) (work type l)
service-Matches ProcessResult.passed runner log type answer r e l =
    Matches-free _ (ground arith) (ground arith) (finish type (work type l))
service-Matches ProcessResult.failed runner log type answer r e l =
    Matches-free _ (ground arith) (ground arith) (finish type (work type l))

perform-Matches :
    (r : Request) (runner : Runner (List Call)) (log : List Call)
    → Matches runner log
    → Matches (perform r (runner, log)).0 (perform r (runner, log)).1
unfolding perform start process stop initialize
perform-Matches (run type answer id p) runner log (free e l) = elim (ℕ_discrete id 0) [
  | yes z ↦ Matches-free _ (ground arith) (ground arith) l
  | no z ↦ Matches-busy _ type answer (ground arith) (ground arith) (begin type p l)
]
perform-Matches (run type answer id p) runner log (busy t a e l) =
    Matches-busy _ t a (ground arith) (ground arith) l
perform-Matches service runner log (free e l) = Matches-free _ (ground arith) (ground arith) l
perform-Matches service runner log (busy t a e l) = service-Matches (a log) runner log t a refl e l
perform-Matches cancel runner log (free e l) = Matches-free _ (ground arith) (ground arith) l
perform-Matches cancel runner log (busy t a e l) =
    Matches-free _ (ground arith) (ground arith) (finish t l)

perform_all-Matches :
    (rs : List Request) (runner : Runner (List Call)) (log : List Call)
    → Matches runner log
    → Matches (perform_all rs (runner, log)).0 (perform_all rs (runner, log)).1
unfolding perform_all
perform_all-Matches [] runner log m = m
perform_all-Matches (r ∷ rs) runner log m =
    perform_all-Matches rs (perform r (runner, log)).0 (perform r (runner, log)).1
      (perform-Matches r runner log m)

Matches-Lives :
    (runner : Runner (List Call)) (log : List Call)
    → Matches runner log
    → Lives (active_type runner) log
unfolding active_type
Matches-Lives runner log (free e l) = subst (λ t. Lives t log) (ground arith) l
Matches-Lives runner log (busy type answer e l) = subst (λ t. Lives t log) (ground arith) l

-- Whatever is asked of the runner in whatever order, and whatever the tests answer: tests are
-- started only while none is alive, worked on only while alive, and each is stopped exactly once
-- before another starts; the runner's active type is the test that is alive.
pub perform_all-Lives :
    (rs : List Request)
    → let (runner, log) = perform_all rs (initialize, []) in Lives (active_type runner) log
perform_all-Lives rs =
    Matches-Lives _ _ (perform_all-Matches rs initialize [] (unfold initialize in free refl nobody))
