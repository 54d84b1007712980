-- ===== src/Exit.antt =====
-- cmd/secverify/execution.go: what the command reports of a run, and its exit code. The report of the
-- run goes to one writer and the diagnostics to another; `message` is the text of an error.
pub mod Codes
pub mod Identity
use verify.Prelude.{Bool, List, [], if◌then◌else◌, length, not, ℕ, ◌++◌, ◌==◌, ◌||◌, ◌∷◌}
use verify.Errors.{
  Error, cancelled, cleanup, context_canceled, deadline_exceeded, invalid_plan, invocation, is,
  reporting, unavailable, wrong_output,
}
use verify.Text.{Bytes, codes}
use verify.Text.Utf8.{Unicode}
use verify.ExactWrite.{Writer, bytes}
use verify.SafeOutput.{diagnostic}
use verify.Plan.{Plan}
use verify.Plan.Admit.{Platform}
use verify.Execute.{
  ControlResult, Machine, Report, State, state_cancelled, state_fail, state_invocation_error,
  state_pass, state_unavailable,
}
use verify.Execute.Run.{execute}

abbrev pub exit_pass : ℕ
exit_pass = 0

abbrev pub exit_fail : ℕ
exit_fail = 1

abbrev pub exit_invocation : ℕ
exit_invocation = 2

abbrev pub exit_unavailable : ℕ
exit_unavailable = 3

abbrev pub exit_cancelled : ℕ
exit_cancelled = 4

-- `exitFor`
unfoldable pub exit_for : Error → ℕ
exit_for e =
    if is e cleanup
    then exit_fail
    else if is e unavailable
    then exit_unavailable
    else if is e cancelled || is e context_canceled
    then exit_cancelled
    else if is e invocation || is e invalid_plan
    then exit_invocation
    else exit_fail

unfoldable pub state_number : State → ℕ
state_number state_pass = 0
state_number state_fail = 1
state_number state_cancelled = 2
state_number state_unavailable = 3
state_number state_invocation_error = 4

-- `==` on states.
abbrev pub same_state : State → State → Bool
same_state a b = state_number a == state_number b

-- The switch of `reportExecutionError`.
unfoldable pub action_of : Report → Error → Bytes
unfolding state_number
action_of report e =
    if is e reporting
    then codes "could not write output"
    else if is e cleanup
    then codes "cleanup failed"
    else if same_state report.state state_cancelled
    then codes "cancelled"
    else if same_state report.state state_unavailable
    then codes "unavailable"
    else if same_state report.state state_invocation_error
    then codes "could not start"
    else if is e deadline_exceeded
    then codes "timed out"
    else if is e wrong_output
    then codes "produced unexpected output"
    else codes "failed"

-- The last of a list that begins with `first`.
abbrev pub last_of : ControlResult → List ControlResult → ControlResult
last_of first [] = first
last_of first (next ∷ results) = last_of next results

unfoldable pub location_of : ControlResult → Report → Error → Bytes
unfolding state_number
location_of last report e =
    if same_state last.state report.state
    then codes " at " ++ last.id
    else if is e reporting
    then codes " after " ++ last.id
    else []

-- `executionLocation`
unfoldable pub execution_location : Report → Error → Bytes
unfolding location_of
execution_location report e = elim (Report.controls report) [
  | [] ↦ []
  | first ∷ results ↦ location_of (last_of first results) report e
]

module _ (stderr : Writer) where
  -- The exit code behind the message.
  abbrev pub unless_lost : ℕ → Error × Writer.Sink stderr → ℕ × Writer.Sink stderr
  unless_lost code ([], s) = (code, s)
  unless_lost code (c ∷ cs, s) = (exit_invocation, s)

  -- `reportExecutionError`
  unfoldable pub report_execution_error :
      Report → Error → Writer.Sink stderr → ℕ × Writer.Sink stderr
  unfolding action_of execution_location exit_for
  report_execution_error report e s =
      unless_lost (if is e reporting then exit_invocation else exit_for e) (
        bytes stderr s (
          codes "secverify: "
          ++ report.profile
          ++ codes " "
          ++ action_of report e
          ++ execution_location report e
          ++ codes "\n"))

  -- `writeFailure`
  unfoldable pub write_failure :
      Unicode → (Error → Bytes) → Error → Writer.Sink stderr → ℕ × Writer.Sink stderr
  unfolding exit_for
  write_failure u message e s =
      unless_lost (exit_for e)
        (bytes stderr s (codes "secverify: " ++ diagnostic u (message e) ++ codes "\n"))

  -- `executeVerification` behind the run.
  unfoldable pub conclude :
      Unicode → (Error → Bytes) → Report × Error → Writer.Sink stderr → ℕ × Writer.Sink stderr
  unfolding report_execution_error write_failure
  conclude u message (report, []) s = (exit_pass, s)
  conclude u message (report, c ∷ cs) s =
      if not (length report.controls == 0) || is (c ∷ cs) reporting
      then report_execution_error report (c ∷ cs) s
      else write_failure u message (c ∷ cs) s

module _ (w stderr : Writer) (p : Platform) (u : Unicode) (m : Machine w)
    (message : Error → Bytes) where
  -- `executeVerification`, with the states of both writers behind it.
  unfoldable pub execute_verification :
      Bytes
      → Plan
      → Bytes
      → Writer.Sink w
      → Writer.Sink stderr
      → (ℕ × Writer.Sink stderr) × Writer.Sink w
  unfolding conclude
  execute_verification root plan profile out s =
      let (ran, out') = execute w p u m root plan profile out in
      (conclude stderr u message ran s, out')
