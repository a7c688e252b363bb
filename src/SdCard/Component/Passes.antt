-- ===== src/SdCard/Component/Passes.antt =====
-- The SD card test passes only when every sector was written, verified and cleared.
use flight_computer_test.Base.{
  ℕ, zero, suc, ◌-◌, ◌≤◌, ◌<◌, ◌≡◌, refl, subst, Bool, true, none, List, [], ◌∷◌, length, All,
  if◌then◌else◌, arith,
}
use flight_computer_test.Base.Int.{pos}
use flight_computer_test.Registry.{ProcessResult}
use flight_computer_test.SdCard.Component.{
  State, announce_removal, waiting_for_removal, announce_insertion, waiting_for_insertion,
  initializing, writing, verifying, cleaning_up, complete, failed, Driver, SdCardTest,
  SdCardInformation, test_block_count, stable_card_state, sd_card_test_start, next_block,
  await_card, process_state, sd_card_test_process,
}

-- What the driver has done with success.
pub data Op : Type 0 where
  initialized : Op
  wrote verified cleared : ℕ → Op

-- What one call of sd_card_test_process meets: the time, the card switch, and whether the driver
-- succeeds, with the information that it fills in.
pub record Input : Type 0 where
  pub tick : ℕ
  pub inserted : Bool
  pub succeeds : Bool
  pub information : SdCardInformation

abbrev pub log_if : Bool → Op → Input × List Op → Input × List Op
log_if succeeded op (input, log) = (input, if succeeded then op ∷ log else log)

-- A driver that writes down what it has done; the latest comes first.
abbrev pub bench : Driver (Input × List Op)
bench = record {
  initialize = λ _ h. (h.0.succeeds, h.0.information, log_if h.0.succeeds initialized h);
  write_test_block =
      λ _ block h. (h.0.succeeds, h.0.information, log_if h.0.succeeds (wrote block) h);
  verify_test_block = λ _ block h. (h.0.succeeds, log_if h.0.succeeds (verified block) h);
  clear_test_block = λ _ block h. (h.0.succeeds, log_if h.0.succeeds (cleared block) h);
  shutdown = λ h. h;
  last_failure = λ _. record { stage = none; reason = none; code = pos 0 };
  tick = λ h. h.0.tick;
  card_inserted = λ h. h.0.inserted;
}

-- One call of the test's process function for each input.
unfoldable pub run : List Input → SdCardTest → List Op → SdCardTest × List Op
run [] t log = (t, log)
run (input ∷ inputs) t log =
    let (_, t', h) = sd_card_test_process bench t (input, log) in run inputs t' h.1

-- An operation on the first `n` blocks, in order.
abbrev pub on_blocks : (ℕ → Op) → ℕ → List Op → List Op
on_blocks op zero log = log
on_blocks op (suc n) log = op n ∷ on_blocks op n log

abbrev pub after_writing : List Op
after_writing = on_blocks wrote test_block_count (initialized ∷ [])

abbrev pub after_verifying : List Op
after_verifying = on_blocks verified test_block_count after_writing

abbrev pub after_clearing : List Op
after_clearing = on_blocks cleared test_block_count after_verifying

-- How far the driver is when the test is in a state, at a block.
abbrev Expected : State → ℕ → List Op → Type 0
Expected announce_removal block log = (block ≡ 0) × (log ≡ [])
Expected waiting_for_removal block log = (block ≡ 0) × (log ≡ [])
Expected announce_insertion block log = (block ≡ 0) × (log ≡ [])
Expected waiting_for_insertion block log = (block ≡ 0) × (log ≡ [])
Expected initializing block log = (block ≡ 0) × (log ≡ [])
Expected writing block log =
    (block < test_block_count) × (log ≡ on_blocks wrote block (initialized ∷ []))
Expected verifying block log =
    (block < test_block_count) × (log ≡ on_blocks verified block after_writing)
Expected cleaning_up block log =
    (block < test_block_count) × (log ≡ on_blocks cleared block after_verifying)
Expected complete block log = log ≡ after_clearing
Expected failed block log = Unit

process_state-Expected :
    (state : State) (t : SdCardTest) (input : Input) (log : List Op)
    → t.state ≡ state
    → Expected state t.current_block log
    → let (_, t', h) = process_state bench state t (input, log) in
      Expected t'.state t'.current_block h.1
unfolding process_state await_card next_block stable_card_state
process_state-Expected announce_removal t input log e x = x
process_state-Expected waiting_for_removal t input log e x = ground (arith, e, x)
process_state-Expected announce_insertion t input log e x = x
process_state-Expected waiting_for_insertion t input log e x = ground (arith, e, x)
process_state-Expected initializing t input log e x = ground (arith, e, x)
process_state-Expected writing t input log e x = ground (arith, e, x)
process_state-Expected verifying t input log e x = ground (arith, e, x)
process_state-Expected cleaning_up t input log e x = ground (arith, e, x)
process_state-Expected complete t input log e x = rw e x
process_state-Expected failed t input log e x = rw e x

run-Expected :
    (inputs : List Input) (t : SdCardTest) (log : List Op)
    → Expected t.state t.current_block log
    → let (t', log') = run inputs t log in Expected t'.state t'.current_block log'
unfolding run sd_card_test_process
run-Expected [] t log x = x
run-Expected (input ∷ inputs) t log x =
    run-Expected inputs _ _ (process_state-Expected t.state t input log refl x)

start-Expected :
    (t : SdCardTest) (input : Input)
    → let t' = sd_card_test_start bench t (input, []) in Expected t'.state t'.current_block []
unfolding sd_card_test_start
start-Expected t input = ground arith

passed-complete :
    (state : State) (t : SdCardTest) (input : Input) (log : List Op)
    → t.state ≡ state
    → (process_state bench state t (input, log)).0 ≡ ProcessResult.passed
    → state ≡ complete
unfolding process_state await_card next_block stable_card_state
passed-complete announce_removal t input log e p = cc
passed-complete waiting_for_removal t input log e p = ground (arith, p)
passed-complete announce_insertion t input log e p = cc
passed-complete waiting_for_insertion t input log e p = ground (arith, p)
passed-complete initializing t input log e p = ground (arith, p)
passed-complete writing t input log e p = ground (arith, p)
passed-complete verifying t input log e p = ground (arith, p)
passed-complete cleaning_up t input log e p = ground (arith, p)
passed-complete complete t input log e p = refl
passed-complete failed t input log e p = cc

-- However the test was left, whatever the card switch, the clock and the driver answer from its
-- start on: if a call of sd_card_test_process passes, then since the start the driver has
-- initialized the card once, then written, then verified and then cleared the eight sectors, each
-- in order and exactly once, and all with success.
pub passed-after_clearing :
    (t : SdCardTest) (first last : Input) (inputs : List Input)
    → (sd_card_test_process bench
        (run inputs (sd_card_test_start bench t (first, [])) []).0
        (last, (run inputs (sd_card_test_start bench t (first, [])) []).1)).0
      ≡ ProcessResult.passed
    → (run inputs (sd_card_test_start bench t (first, [])) []).1 ≡ after_clearing
unfolding sd_card_test_process
passed-after_clearing t first last inputs p =
    let t1 = sd_card_test_start bench t (first, []) in
    let (t', log) = run inputs t1 [] in
    subst (λ s. Expected s t'.current_block log) (passed-complete t'.state t' last log refl p)
      (run-Expected inputs t1 [] (start-Expected t first))

-- A call that finds the card in place and a driver that succeeds.
abbrev pub Good : Input → Type 0
Good input = (input.inserted ≡ true) × (input.succeeds ≡ true)

-- How many calls are left, and the states in which the firmware works on the card.
abbrev left : State → ℕ → ℕ
left initializing block = 25
left writing block = 24 - block
left verifying block = 16 - block
left cleaning_up block = 8 - block
left _ block = 0

abbrev Works : State → ℕ → Type 0
Works initializing block = block ≡ 0
Works writing block = block < test_block_count
Works verifying block = block < test_block_count
Works cleaning_up block = block < test_block_count
Works complete block = Unit
Works _ block = ⊥

advance :
    (state : State) (t : SdCardTest) (input : Input) (log : List Op)
    → t.state ≡ state
    → Works state t.current_block
    → Good input
    → let t' = (process_state bench state t (input, log)).1 in
      Works t'.state t'.current_block
      × (left t'.state t'.current_block ≡ left state t.current_block - 1)
unfolding process_state next_block
advance initializing t input log e x g = ground (arith, e, x, g)
advance writing t input log e x g = ground (arith, e, x, g)
advance verifying t input log e x g = ground (arith, e, x, g)
advance cleaning_up t input log e x g = ground (arith, e, x, g)
advance complete t input log e x g = rw e (tt, refl)
advance announce_removal t input log e x g = absurd x
advance waiting_for_removal t input log e x g = absurd x
advance announce_insertion t input log e x g = absurd x
advance waiting_for_insertion t input log e x g = absurd x
advance failed t input log e x g = absurd x

advance_run :
    (inputs : List Input) (t : SdCardTest) (log : List Op)
    → Works t.state t.current_block
    → All Good inputs
    → left t.state t.current_block ≤ length inputs
    → (run inputs t log).0.state ≡ complete
unfolding run sd_card_test_process
advance_run [] t log x g l = worked t.state t.current_block x l
  where
    worked :
        (state : State) (block : ℕ) → Works state block → left state block ≤ 0 → state ≡ complete
    worked initializing block x l = absurd (omega arith)
    worked writing block x l = absurd (omega arith)
    worked verifying block x l = absurd (omega arith)
    worked cleaning_up block x l = absurd (omega arith)
    worked complete block x l = refl
    worked announce_removal block x l = absurd x
    worked waiting_for_removal block x l = absurd x
    worked announce_insertion block x l = absurd x
    worked waiting_for_insertion block x l = absurd x
    worked failed block x l = absurd x
advance_run (input ∷ inputs) t log x g l =
    let (x', l') = advance t.state t input log refl x g.0 in
    advance_run inputs _ _ x' g.1 (omega (arith, l, l'))

-- Once a card is detected, 25 calls that find it in place and a driver that succeeds complete the
-- test: one to initialize the card, and eight each to write, to verify and to clear.
pub run-complete :
    (inputs : List Input) (t : SdCardTest) (log : List Op)
    → t.state ≡ initializing
    → t.current_block ≡ 0
    → All Good inputs
    → length inputs ≡ 25
    → (run inputs t log).0.state ≡ complete
run-complete inputs t log s b g n =
    advance_run inputs t log (ground (arith, s, b)) g (ground (arith, s, n))
