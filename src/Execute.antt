-- ===== src/Execute.antt =====
-- execute.go: the running of an admitted plan. The caller's context, the processes and the clock are
-- the parameter `Machine`, over the state of the writer that takes the report.
pub mod Control
pub mod Run
use verify.Errors.{Error, failed, invocation, wrong_output, is_nil}
use verify.Prelude.{
  Bool, List, Option, [], false, if◌then◌else◌, negsuc, none, not, pos, some, true, ℕ, ℤ, ◌&&◌,
  ◌++◌, ◌==◌, ◌||◌, ◌∷◌,
}
use verify.Text.{Bytes, codes, equal}
use verify.ExactWrite.{Writer}
use verify.Plan.{Command}

pub data State : Type 0 where
  state_pass state_fail state_cancelled state_unavailable state_invocation_error : State

-- `ControlResult`
pub record ControlResult : Type 0 where
  pub id : Bytes
  pub state : State
  pub exit_code : ℤ
  pub stdout_bytes : ℕ
  pub stderr_bytes : ℕ
  pub duration : ℤ

-- `Result`
pub record Report : Type 0 where
  pub plan : Bytes
  pub profile : Bytes
  pub state : State
  pub controls : List ControlResult
  pub duration : ℤ

-- `proctree.Result`, with the outcomes that are told apart.
pub data OutcomeKind : Type 0 where
  outcome_completed outcome_cleanup_failure : OutcomeKind
  outcome_other : ℕ → OutcomeKind

pub record Outcome : Type 0 where
  pub started : Bool
  pub kind : OutcomeKind
  pub exit_code : ℤ
  pub stdout : Bytes
  pub stderr : Bytes

-- `proctree.Command`
pub record Process : Type 0 where
  pub executable : Bytes
  pub arguments : List Bytes
  pub directory : Bytes
  pub environment : List Bytes
  pub input : Bytes
  pub stdout_limit : ℤ
  pub stderr_limit : ℤ

-- What the execution asks of its surroundings, over the state of the writer: `ctx.Err`, a context
-- with a timeout and its `Err` and `cancel`, `proctree.Run`, and the clock; and what it asks of
-- package fmt: `%d`, and the rendering of a duration.
pub record Machine (w : Writer) : Type 1 where
  pub context_error : Writer.Sink w → Error × Writer.Sink w
  pub with_timeout : ℤ → Writer.Sink w → Writer.Sink w
  pub control_error : Writer.Sink w → Error × Writer.Sink w
  pub cancel : Writer.Sink w → Writer.Sink w
  pub run : Process → Writer.Sink w → (Outcome × Error) × Writer.Sink w
  pub Time : Type 0
  pub clock : Writer.Sink w → Time × Writer.Sink w
  pub since : Time → Time → ℤ
  pub decimal : ℕ → Bytes
  pub format_duration : ℤ → Bytes

unfoldable pub is_pass : State → Bool
is_pass state_pass = true
is_pass state_fail = false
is_pass state_cancelled = false
is_pass state_unavailable = false
is_pass state_invocation_error = false

-- `stateLabel`
unfoldable pub state_label : State → Bytes
state_label state_pass = codes "PASS"
state_label state_fail = codes "FAIL"
state_label state_cancelled = codes "CANCELLED"
state_label state_unavailable = codes "UNAVAILABLE"
state_label state_invocation_error = codes "INVOCATION ERROR"

-- An expected output that is nil agrees with every output.
unfoldable pub expected : Option Bytes → Bytes → Bool
expected none output = true
expected (some value) output = equal value output

-- `matchesExpectedOutput`
unfoldable pub matches_expected_output : Command → Outcome → Bool
unfolding expected
matches_expected_output command outcome =
    expected command.expected_stdout outcome.stdout
    && expected command.expected_stderr outcome.stderr

unfoldable pub is_cleanup_failure : OutcomeKind → Bool
is_cleanup_failure outcome_completed = false
is_cleanup_failure outcome_cleanup_failure = true
is_cleanup_failure (outcome_other n) = false

unfoldable pub is_completed : OutcomeKind → Bool
is_completed outcome_completed = true
is_completed outcome_cleanup_failure = false
is_completed (outcome_other n) = false

abbrev pub is_zero : ℤ → Bool
is_zero (pos n) = n == 0
is_zero (negsuc n) = false

-- The last branches of `classifyOutcome`, behind both contexts.
unfoldable pub classify_exit : Outcome → Error → State × Error
unfolding is_completed
classify_exit outcome run_error =
    if not outcome.started
    then (state_invocation_error, invocation ∷ run_error)
    else if not (is_nil run_error)
        || not (is_zero outcome.exit_code)
        || not (is_completed outcome.kind)
    then (state_fail, failed ∷ run_error)
    else (state_pass, [])

-- The state and the error that `executeControl` compares the output with.
unfoldable pub compared : Bool → State × Error → State × Error
unfolding is_pass
compared matches (state, error) =
    if matches
    then (state, error)
    else if is_pass state
    then (state_fail, failed ∷ wrong_output ∷ error)
    else (state, wrong_output ∷ error)

-- `controlCount`
unfoldable pub control_count : (ℕ → Bytes) → ℕ → Bytes
control_count decimal count =
    if count == 1 then codes "1 control" else decimal count ++ codes " controls"
