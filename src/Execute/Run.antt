-- ===== src/Execute/Run.antt =====
-- execute.go: `execute`, on a context and an output that are not nil.
pub mod Verdict
use verify.Errors.{Error, Result, cancelled, err, invocation, ok, reporting}
use verify.Prelude.{[], if◌then◌else◌, length, not, pos, ◌++◌, ◌∷◌}
use verify.Text.{Bytes, codes}
use verify.Text.Utf8.{Unicode}
use verify.ExactWrite.{Writer, bytes}
use verify.Plan.{Plan, Profile}
use verify.Plan.Names.{valid_identifier}
use verify.Plan.Admit.{Platform}
use verify.Plan.Whole.{admit, selected_profile}
use verify.Execute.{
  Machine, Report, State, control_count, state_cancelled, state_invocation_error, state_pass,
}
use verify.Execute.Control.{execute_controls}

module _ (w : Writer) (p : Platform) (u : Unicode) (m : Machine w) where
  open w use {Sink}
  open m use {context_error, clock, since, decimal, format_duration}

  -- `clock().Sub(started)` in a report that is returned.
  pub timed : Machine.Time m → Report → Error → Sink → (Report × Error) × Sink
  timed started report error s =
      let (now, s') = clock s in ((record report { duration = since now started }, error), s')

  abbrev pub report_of : Bytes → Bytes → State → Report
  report_of plan profile state = record {
    plan = plan;
    profile = profile;
    state = state;
    controls = [];
    duration = pos 0;
  }

  -- The last write of `execute`.
  pub summarised : Report → Error × Sink → (Report × Error) × Sink
  summarised report (c ∷ cs, s) =
      ((record report { state = state_invocation_error }, invocation ∷ reporting ∷ c ∷ cs), s)
  summarised report ([], s) = ((report, []), s)

  -- `execute` behind the controls.
  pub summarise : Profile → (Report × Error) × Sink → (Report × Error) × Sink
  unfolding summarised
  summarise profile ((report, c ∷ cs), s) = ((report, c ∷ cs), s)
  summarise profile ((report, []), s) = summarised report (
      bytes w s (
        codes "\nPASS "
        ++ profile.id
        ++ codes ": "
        ++ control_count decimal (length profile.controls)
        ++ codes " in "
        ++ format_duration report.duration
        ++ codes "\n"))

  pub timed_controls : Machine.Time m → (Report × Error) × Sink → (Report × Error) × Sink
  unfolding timed
  timed_controls started ((report, error), s) = timed started report error s

  -- `execute` behind its first write.
  pub run_profile : Machine.Time m → Bytes → Profile → Error × Sink → (Report × Error) × Sink
  unfolding timed timed_controls summarise
  run_profile started plan profile (c ∷ cs, s) =
      timed started (report_of plan profile.id state_invocation_error)
        (invocation ∷ reporting ∷ c ∷ cs) s
  run_profile started plan profile ([], s) = summarise profile (
      timed_controls started (
        execute_controls w u m 0 (length profile.controls) profile.controls
          (report_of plan profile.id state_pass) s))

  -- `execute` behind the choice of the profile.
  pub run_selected :
      Machine.Time m → Bytes → Bytes → Result Profile → Sink → (Report × Error) × Sink
  unfolding timed run_profile
  run_selected started plan profile_id (err e) s =
      timed started (report_of plan profile_id state_invocation_error) (invocation ∷ e) s
  run_selected started plan profile_id (ok profile) s = run_profile started plan profile (
      bytes w s (
        codes "profile="
        ++ profile.id
        ++ codes " controls="
        ++ decimal (length profile.controls)
        ++ codes "\n"))

  -- A refused plan, by the error of the context.
  pub refused : Machine.Time m → Bytes → Bytes → Error → Error × Sink → (Report × Error) × Sink
  unfolding timed
  refused started plan profile_id e (c ∷ cs, s) =
      timed started (report_of plan profile_id state_cancelled) (cancelled ∷ c ∷ cs) s
  refused started plan profile_id e ([], s) =
      timed started (report_of plan profile_id state_invocation_error) e s

  -- `execute` behind the admission.
  pub run_admitted : Machine.Time m → Bytes → Bytes → Result Plan × Sink → (Report × Error) × Sink
  unfolding refused run_selected
  run_admitted started plan profile_id (err e, s) =
      refused started plan profile_id e (context_error s)
  run_admitted started plan profile_id (ok admitted, s) =
      run_selected started admitted.id profile_id (selected_profile admitted.profiles profile_id) s

  -- `execute` behind its first poll of the context.
  pub run_polled : Machine.Time m → Bytes → Plan → Bytes → Error × Sink → (Report × Error) × Sink
  unfolding timed run_admitted
  run_polled started root plan profile_id (c ∷ cs, s) =
      timed started (report_of plan.id profile_id state_cancelled) (cancelled ∷ c ∷ cs) s
  run_polled started root plan profile_id ([], s) =
      run_admitted started plan.id profile_id (admit p u context_error root plan s)

  -- `execute`
  unfoldable pub execute : Bytes → Plan → Bytes → Sink → (Report × Error) × Sink
  unfolding timed run_polled
  execute root plan profile_id s =
      let (started, s1) = clock s in
      if not (valid_identifier profile_id)
      then timed started (report_of plan.id profile_id state_invocation_error) (invocation ∷ []) s1
      else run_polled started root plan profile_id (context_error s1)
