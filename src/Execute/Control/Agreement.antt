-- ===== src/Execute/Control/Agreement.antt =====
-- execute.go: a control passes when its error is nil, on every branch of `executeControl`.
use verify.Errors.{Error, cleanup, is, unsupported, is_nil}
use verify.Prelude.{Bool, Bool-cases, [], arith, inl, inr, refl, ℕ, ℤ, ◌||◌, ◌∷◌, ◌≡◌}
use verify.Text.Utf8.{Unicode}
use verify.ExactWrite.{Writer}
use verify.Plan.{Control}
use verify.Execute.{
  ControlResult, Machine, Outcome, State, classify_exit, compared, is_cleanup_failure, is_pass,
  matches_expected_output,
}
use verify.Execute.Control.{
  classify_control, classify_outcome, classify_parent, execute_control, finish_control,
  report_control, run_control, show_control, start_control, process,
}

-- A state with an error: it is PASS exactly when the error is nil.
abbrev pub Agrees : State → Error → Type 0
Agrees state error = is_pass state ≡ is_nil error

-- A result with the identifier of the control that agrees with an error.
abbrev pub IsResultOf : Control → ControlResult → Error → Type 0
IsResultOf control result error = (result.id ≡ control.id) × Agrees result.state error

classify_exit-Agrees :
    (o : Outcome) (e : Error) → Agrees (classify_exit o e).0 (classify_exit o e).1
unfolding classify_exit is_pass
classify_exit-Agrees o e = ground arith

compared-Agrees :
    (b : Bool) (x : State × Error) → Agrees x.0 x.1 → Agrees (compared b x).0 (compared b x).1
unfolding compared is_pass
compared-Agrees b (state, error) h = ground arith

module _ (w : Writer) (u : Unicode) (m : Machine w) where
  open w use {Sink}

  classify_control-Agrees :
      (o : Outcome) (e : Error) (x : Error × Sink)
      → let r = (classify_control w u m o e x).0 in Agrees r.0 r.1
  unfolding classify_control is_pass
  classify_control-Agrees o e ([], s) = classify_exit-Agrees o e
  classify_control-Agrees o e (c ∷ cs, s) = refl

  classify_parent-Agrees :
      (o : Outcome) (e : Error) (x : Error × Sink)
      → let r = (classify_parent w u m o e x).0 in Agrees r.0 r.1
  unfolding classify_parent is_pass
  classify_parent-Agrees o e ([], s) = classify_control-Agrees o e (Machine.control_error m s)
  classify_parent-Agrees o e (c ∷ cs, s) = refl

  -- `classifyOutcome` returns PASS exactly with a nil error.
  pub classify_outcome-Agrees :
      (o : Outcome) (e : Error) (s : Sink)
      → let r = (classify_outcome w u m o e s).0 in Agrees r.0 r.1
  unfolding classify_outcome is_pass
  classify_outcome-Agrees o e s =
      let h = classify_parent-Agrees o e (Machine.context_error m s) in
      elim (Bool-cases (is e cleanup || is_cleanup_failure o.kind)) [
        | inl b ↦ rw b
        | inr b ↦ elim (Bool-cases (is e unsupported)) [ inl d ↦ rw (b, d) | inr d ↦ rw (b, d) h ]
      ]

  finish_control-IsResultOf :
      (k : Control) (r : ControlResult) (e : Error) (x : Error × Sink)
      → IsResultOf k r e
      → let q = (finish_control w u m k r e x).0 in IsResultOf k q.0 q.1
  unfolding finish_control is_pass
  finish_control-IsResultOf k r e (c ∷ cs, s) h = (h.0, refl)
  finish_control-IsResultOf k r e ([], s) h = h

  show_control-IsResultOf :
      (k : Control) (r : ControlResult) (st : State) (e : Error) (x : Error × Sink)
      → IsResultOf k r e
      → let q = (show_control w u m k r st e x).0 in IsResultOf k q.0 q.1
  unfolding show_control is_pass
  show_control-IsResultOf k r st e (c ∷ cs, s) h = (h.0, refl)
  show_control-IsResultOf k r st e ([], s) h = finish_control-IsResultOf k r e _ h

  report_control-IsResultOf :
      (k : Control) (o : Outcome) (d : ℤ) (x : State × Error) (s : Sink)
      → Agrees x.0 x.1
      → let q = (report_control w u m k o d x s).0 in IsResultOf k q.0 q.1
  unfolding report_control
  report_control-IsResultOf k o d (st, e) s h = show_control-IsResultOf k _ st e _ (refl, h)

  start_control-IsResultOf :
      (k : Control) (t : Machine.Time m) (x : Error × Sink)
      → let q = (start_control w u m k t x).0 in IsResultOf k q.0 q.1
  unfolding start_control run_control is_pass
  start_control-IsResultOf k t (c ∷ cs, s) = (refl, refl)
  start_control-IsResultOf k t ([], s) =
      let ((o, e), s1) =
        Machine.run m (process k.command) (Machine.with_timeout m k.command.timeout s) in
      let (stopped, s2) = Machine.clock m s1 in
      let (classified, s3) = classify_outcome w u m o e s2 in
      report_control-IsResultOf k o (Machine.since m stopped t)
        (compared (matches_expected_output k.command o) classified) s3
        (compared-Agrees (matches_expected_output k.command o) classified
          (classify_outcome-Agrees o e s2))

  -- `executeControl` returns a result with the identifier of the control, which says PASS exactly with a
  -- nil error, whatever fails: the process, the contexts, the comparison of the output or a write of
  -- the report.
  pub execute_control-IsResultOf :
      (k : Control) (position total : ℕ) (s : Sink)
      → let q = (execute_control w u m k position total s).0 in IsResultOf k q.0 q.1
  unfolding execute_control
  execute_control-IsResultOf k position total s = start_control-IsResultOf k _ _
