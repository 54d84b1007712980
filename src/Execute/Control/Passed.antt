-- ===== src/Execute/Control/Passed.antt =====
-- execute.go: what has happened when `executeControl` and `executeControls` return a nil error.
use verify.Prelude.{
  Bool, Bool-cases, Option, [], ap, arith, false, inl, inr, length, negsuc, none, pos, refl, some,
  subst, true, ℕ, ℤ, ◌||◌, ◌∷◌, ◌≡◌, ◌⊎◌,
}
use verify.Errors.{Error, cleanup, is, is_nil-nil, unsupported}
use verify.Text.{Bytes, equal_iff}
use verify.Text.Utf8.{Unicode}
use verify.ExactWrite.{Writer, bytes}
use verify.Plan.{Command, Control}
use verify.Execute.{
  ControlResult, Machine, Outcome, OutcomeKind, State, classify_exit, compared, expected,
  is_cleanup_failure, is_completed, is_zero, matches_expected_output, outcome_cleanup_failure,
  outcome_completed, outcome_other,
}
use verify.Execute.Control.{
  classify_control, classify_outcome, classify_parent, execute_control, finish_control, process,
  report_control, run_control, show_control, start_control,
}

-- An output that is as expected, where something is expected.
abbrev pub IsExpected : Option Bytes → Bytes → Type 0
IsExpected value output = (value ≡ none) ⊎ (value ≡ some output)

expected-IsExpected :
    (value : Option Bytes) (output : Bytes) → expected value output ≡ true → IsExpected value output
unfolding expected
expected-IsExpected none output h = inl refl
expected-IsExpected (some value) output h = inr (ap some ((equal_iff value output).0 h))

is_zero-pos : (z : ℤ) → is_zero z ≡ true → z ≡ pos 0
is_zero-pos (pos n) h = ap pos (ground arith)
is_zero-pos (negsuc n) h = absurd (ground arith)

is_completed-kind : (k : OutcomeKind) → is_completed k ≡ true → k ≡ outcome_completed
unfolding is_completed
is_completed-kind outcome_completed h = refl
is_completed-kind outcome_cleanup_failure h = absurd (ground arith)
is_completed-kind (outcome_other n) h = absurd (ground arith)

-- A process that was started, and ended by itself with the status 0.
pub record HasExited (o : Outcome) (e : Error) : Type 0 where
  pub no_error : e ≡ []
  pub started : o.started ≡ true
  pub completed : o.kind ≡ outcome_completed
  pub status : o.exit_code ≡ pos 0

classify_exit-HasExited : (o : Outcome) (e : Error) → (classify_exit o e).1 ≡ [] → HasExited o e
unfolding classify_exit
classify_exit-HasExited o e h = record {
  no_error = is_nil-nil e (ground arith);
  started = ground arith;
  completed = is_completed-kind o.kind (ground arith);
  status = is_zero-pos o.exit_code (ground arith);
}

compared-nil : (b : Bool) (x : State × Error) → (compared b x).1 ≡ [] → (b ≡ true) × (x.1 ≡ [])
unfolding compared
compared-nil true (state, error) h = (refl, h)
compared-nil false (state, error) h = absurd (ground arith)

module _ (w : Writer) (u : Unicode) (m : Machine w) where
  open w use {Sink}

  -- At the end of a process, neither the caller's context nor that of the control is done.
  abbrev pub IsInTime : Sink → Type 0
  IsInTime s =
      ((Machine.context_error m s).0 ≡ [])
      × ((Machine.control_error m (Machine.context_error m s).1).0 ≡ [])

  classify_control-nil :
      (o : Outcome) (e : Error) (x : Error × Sink)
      → (classify_control w u m o e x).0.1 ≡ []
      → (x.0 ≡ []) × HasExited o e
  unfolding classify_control
  classify_control-nil o e ([], s) h = (refl, classify_exit-HasExited o e h)
  classify_control-nil o e (c ∷ cs, s) h = absurd (ground arith)

  classify_parent-nil :
      (o : Outcome) (e : Error) (x : Error × Sink)
      → (classify_parent w u m o e x).0.1 ≡ []
      → (x.0 ≡ []) × ((Machine.control_error m x.1).0 ≡ []) × HasExited o e
  unfolding classify_parent
  classify_parent-nil o e ([], s) h =
      let (in_time, exited) = classify_control-nil o e (Machine.control_error m s) h in
      (refl, in_time, exited)
  classify_parent-nil o e (c ∷ cs, s) h = absurd (ground arith)

  classify_outcome-nil :
      (o : Outcome) (e : Error) (s : Sink)
      → (classify_outcome w u m o e s).0.1 ≡ []
      → IsInTime s × HasExited o e
  unfolding classify_outcome
  classify_outcome-nil o e s h = elim (Bool-cases (is e cleanup || is_cleanup_failure o.kind)) [
    | inl b ↦ absurd (ground arith)
    | inr b ↦ elim (Bool-cases (is e unsupported)) [
      | inl d ↦ absurd (ground arith)
      | inr d ↦
          let (a, c, exited) =
            classify_parent-nil o e (Machine.context_error m s) (rw (b, d) at h) in
          ((a, c), exited)
    ]
  ]

  finish_control-nil :
      (k : Control) (r : ControlResult) (e : Error) (x : Error × Sink)
      → (finish_control w u m k r e x).0.1 ≡ []
      → (e ≡ []) × ((finish_control w u m k r e x).0.0 ≡ r)
  unfolding finish_control
  finish_control-nil k r e (c ∷ cs, s) h = absurd (ground arith)
  finish_control-nil k r e ([], s) h = (h, refl)

  show_control-nil :
      (k : Control) (r : ControlResult) (st : State) (e : Error) (x : Error × Sink)
      → (show_control w u m k r st e x).0.1 ≡ []
      → (e ≡ []) × ((show_control w u m k r st e x).0.0 ≡ r)
  unfolding show_control
  show_control-nil k r st e (c ∷ cs, s) h = absurd (ground arith)
  show_control-nil k r st e ([], s) h = finish_control-nil k r e _ h

  -- What a result keeps of a process.
  abbrev pub IsRecord : Outcome → ControlResult → Type 0
  IsRecord o r =
      (r.exit_code ≡ o.exit_code)
      × (r.stdout_bytes ≡ length o.stdout)
      × (r.stderr_bytes ≡ length o.stderr)

  report_control-nil :
      (k : Control) (o : Outcome) (d : ℤ) (x : State × Error) (s : Sink)
      → (report_control w u m k o d x s).0.1 ≡ []
      → (x.1 ≡ []) × IsRecord o (report_control w u m k o d x s).0.0
  unfolding report_control
  report_control-nil k o d (st, e) s h =
      let (none_left, same) = show_control-nil k _ st e _ h in
      (
        none_left,
        (
          ap ControlResult.exit_code same,
          ap ControlResult.stdout_bytes same,
          ap ControlResult.stderr_bytes same,
        ),
      )

  -- The process of a control has run, from a state behind the first write: it was started, ended in time
  -- with the status 0 and printed what is expected; the result tells its status and sizes.
  pub record HasRun (k : Control) (r : ControlResult) (s : Sink) : Type 0 where
    pub before : Sink
    pub behind : Sink
    pub outcome : Outcome
    pub opened : (text : Bytes) × (bytes w (Machine.clock m s).1 text ≡ ([], before))
    pub ran :
        Machine.run m (process k.command) (Machine.with_timeout m k.command.timeout before)
        ≡ ((outcome, []), behind)
    pub exited : HasExited outcome []
    pub in_time : IsInTime (Machine.clock m behind).1
    pub stdout_expected : IsExpected k.command.expected_stdout outcome.stdout
    pub stderr_expected : IsExpected k.command.expected_stderr outcome.stderr
    pub recorded : IsRecord outcome r

  pair_with : (x : (Outcome × Error) × Sink) → x.0.1 ≡ [] → x ≡ ((x.0.0, []), x.1)
  pair_with ((o, e), s) h = rw h refl

  matches-IsExpected :
      (c : Command) (o : Outcome)
      → matches_expected_output c o ≡ true
      → IsExpected c.expected_stdout o.stdout × IsExpected c.expected_stderr o.stderr
  unfolding matches_expected_output
  matches-IsExpected c o h = (
    expected-IsExpected c.expected_stdout o.stdout (ground arith),
    expected-IsExpected c.expected_stderr o.stderr (ground arith),
  )

  start_control-HasRun :
      (k : Control) (s : Sink) (text : Bytes) (x : Error × Sink)
      → bytes w (Machine.clock m s).1 text ≡ x
      → (start_control w u m k (Machine.clock m s).0 x).0.1 ≡ []
      → HasRun k (start_control w u m k (Machine.clock m s).0 x).0.0 s
  unfolding start_control run_control
  start_control-HasRun k s text (c ∷ cs, s1) e h = absurd (ground arith)
  start_control-HasRun k s text ([], s1) e h =
      let x = Machine.run m (process k.command) (Machine.with_timeout m k.command.timeout s1) in
      let o = x.0.0 in
      let (stopped, s2) = Machine.clock m x.1 in
      let (classified, s3) = classify_outcome w u m o x.0.1 s2 in
      let matches = matches_expected_output k.command o in
      let (clear, recorded) =
        report_control-nil k o (Machine.since m stopped (Machine.clock m s).0)
          (compared matches classified) s3 h in
      let (agrees, passed) = compared-nil matches classified clear in
      let (in_time, exited) = classify_outcome-nil o x.0.1 s2 passed in
      let (out_expected, err_expected) = matches-IsExpected k.command o agrees in
      record {
        before = s1;
        behind = x.1;
        outcome = o;
        opened = (text, e);
        ran = pair_with x exited.no_error;
        exited = subst (HasExited o) exited.no_error exited;
        in_time = in_time;
        stdout_expected = out_expected;
        stderr_expected = err_expected;
        recorded = recorded;
      }

  -- Without an error, `executeControl` has run the process of the control.
  pub execute_control-HasRun :
      (k : Control) (position total : ℕ) (s : Sink)
      → (execute_control w u m k position total s).0.1 ≡ []
      → HasRun k (execute_control w u m k position total s).0.0 s
  unfolding execute_control
  execute_control-HasRun k position total s h = start_control-HasRun k s _ _ refl h
