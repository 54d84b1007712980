-- ===== src/Execute/Control.antt =====
-- execute.go: `classifyOutcome` and `executeControl`.
pub mod Agreement
pub mod Complete
pub mod Passed
pub mod Trace
use verify.SafeOutput.Renderer.{write, ◌>>=◌}
use verify.Errors.{
  Error, cancelled, cleanup, failed, invocation, is, reporting, unavailable, unsupported,
}
use verify.Prelude.{List, [], if◌then◌else◌, length, not, pos, ℕ, ℤ, ◌++◌, ◌+◌, ◌||◌, ◌∷◌}
use verify.Text.{codes}
use verify.Text.Utf8.{Unicode}
use verify.ExactWrite.{Writer, bytes}
use verify.Plan.{Command, Control}
use verify.Execute.{
  ControlResult, Machine, Outcome, Process, Report, State, classify_exit, compared,
  is_cleanup_failure, is_pass, matches_expected_output, state_cancelled, state_fail,
  state_invocation_error, state_label, state_unavailable,
}

-- What a control or a loop over controls returns, with the state of the machine behind it.
abbrev pub Ran : Type 0 → Type 0
Ran S = (ControlResult × Error) × S

pub process : Command → Process
process c = record {
  executable = c.executable;
  arguments = c.arguments;
  directory = c.directory;
  environment = c.environment;
  input = c.input;
  stdout_limit = c.output_limit;
  stderr_limit = c.output_limit;
}

module _ (w : Writer) (u : Unicode) (m : Machine w) where
  open w use {Sink}
  open m use {
    context_error, with_timeout, control_error, cancel, run, clock, since, decimal, format_duration,
  }

  -- `control.Err() != nil`, and what is behind it; the context is asked again for its error.
  pub classify_control : Outcome → Error → Error × Sink → (State × Error) × Sink
  unfolding classify_exit
  classify_control outcome run_error ([], s) = (classify_exit outcome run_error, s)
  classify_control outcome run_error (c ∷ cs, s) =
      let (again, s') = control_error s in ((state_fail, failed ∷ again ++ run_error), s')

  -- `parent.Err() != nil`, and what is behind it.
  pub classify_parent : Outcome → Error → Error × Sink → (State × Error) × Sink
  unfolding classify_control
  classify_parent outcome run_error ([], s) = classify_control outcome run_error (control_error s)
  classify_parent outcome run_error (c ∷ cs, s) =
      let (again, s') = context_error s in ((state_cancelled, cancelled ∷ again ++ run_error), s')

  -- `classifyOutcome`
  unfoldable pub classify_outcome : Outcome → Error → Sink → (State × Error) × Sink
  unfolding classify_parent is_cleanup_failure
  classify_outcome outcome run_error s =
      if is run_error cleanup || is_cleanup_failure outcome.kind
      then ((state_fail, failed ∷ cleanup ∷ run_error), s)
      else if is run_error unsupported
      then ((state_unavailable, unavailable ∷ run_error), s)
      else classify_parent outcome run_error (context_error s)

  -- `writeControlOutput`
  unfoldable pub write_control_output : Outcome → Sink → Error × Sink
  write_control_output outcome s = write w u s outcome.stdout >>= λ s'. write w u s' outcome.stderr

  -- The last write of `executeControl`.
  unfoldable pub finish_control : Control → ControlResult → Error → Error × Sink → Ran Sink
  finish_control control result result_error (c ∷ cs, s) = (
    (
      record result { state = state_invocation_error },
      invocation ∷ reporting ∷ c ∷ cs ++ result_error,
    ),
    s,
  )
  finish_control control result result_error ([], s) = ((result, result_error), s)

  -- The end of `executeControl` behind the output of the process.
  unfoldable pub show_control : Control → ControlResult → State → Error → Error × Sink → Ran Sink
  unfolding finish_control
  show_control control result state result_error (c ∷ cs, s) = (
    (
      record result { state = state_invocation_error },
      invocation ∷ reporting ∷ c ∷ cs ++ result_error,
    ),
    s,
  )
  show_control control result state result_error ([], s) =
      finish_control control result result_error (
        bytes w s (
          state_label state
          ++ codes " "
          ++ control.name
          ++ codes " ("
          ++ format_duration result.duration
          ++ codes ")\n"))

  -- `executeControl` behind the classification.
  unfoldable pub report_control : Control → Outcome → ℤ → State × Error → Sink → Ran Sink
  unfolding write_control_output show_control
  report_control control outcome duration (state, result_error) s =
      let result : ControlResult = record {
        id = control.id;
        state = state;
        exit_code = outcome.exit_code;
        stdout_bytes = length outcome.stdout;
        stderr_bytes = length outcome.stderr;
        duration = duration;
      } in
      show_control control result state result_error (
        if not (is_pass state) || control.command.show_success_output
        then write_control_output outcome s
        else ([], s))

  -- `executeControl` behind its first write.
  unfoldable pub run_control : Control → Machine.Time m → Sink → Ran Sink
  unfolding classify_outcome compared matches_expected_output report_control
  run_control control started s =
      let ((outcome, run_error), s1) =
        run (process control.command) (with_timeout control.command.timeout s) in
      let (stopped, s2) = clock s1 in
      let (classified, s3) = classify_outcome outcome run_error s2 in
      let (result, s4) =
        report_control control outcome (since stopped started)
          (compared (matches_expected_output control.command outcome) classified) s3 in
      (result, cancel s4)

  pub start_control : Control → Machine.Time m → Error × Sink → Ran Sink
  unfolding run_control
  start_control control started (c ∷ cs, s) = (
    (
      record {
        id = control.id;
        state = state_invocation_error;
        exit_code = pos 0;
        stdout_bytes = 0;
        stderr_bytes = 0;
        duration = pos 0;
      },
      invocation ∷ reporting ∷ c ∷ cs,
    ),
    s,
  )
  start_control control started ([], s) = run_control control started s

  -- `executeControl`
  unfoldable pub execute_control : Control → ℕ → ℕ → Sink → Ran Sink
  unfolding start_control
  execute_control control position total s =
      let (started, s1) = clock s in
      start_control control started (
        bytes w s1 (
          codes "\n["
          ++ decimal position
          ++ codes "/"
          ++ decimal total
          ++ codes "] "
          ++ control.name
          ++ codes "\n"))

  -- `executeControls` behind a poll of the context.
  pub after_poll :
      Report → (Sink → (Report × Error) × Sink) → Error × Sink → (Report × Error) × Sink
  after_poll report more (c ∷ cs, s) =
      ((record report { state = state_cancelled }, cancelled ∷ c ∷ cs), s)
  after_poll report more ([], s) = more s

  -- `executeControls` behind a control.
  pub after_control :
      Report → (Report → Sink → (Report × Error) × Sink) → Ran Sink → (Report × Error) × Sink
  after_control report more ((result, c ∷ cs), s) = (
    (record report { state = result.state; controls = report.controls ++ result ∷ [] }, c ∷ cs),
    s,
  )
  after_control report more ((result, []), s) =
      more (record report { controls = report.controls ++ result ∷ [] }) s

  -- The loop of `executeControls`, from the place in the profile and the report so far.
  unfoldable pub execute_controls : ℕ → ℕ → List Control → Report → Sink → (Report × Error) × Sink
  unfolding after_poll after_control
  execute_controls index total [] report s =
      after_poll report (λ s1. ((report, []), s1)) (context_error s)
  execute_controls index total (control ∷ controls) report s =
      after_poll report
        (λ s1.
          after_control report (execute_controls (index + 1) total controls)
            (execute_control control (index + 1) total s1))
        (context_error s)
