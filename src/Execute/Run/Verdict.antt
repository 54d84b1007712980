-- ===== src/Execute/Run/Verdict.antt =====
-- execute.go: what the report of `execute` says, on every branch.
use verify.Errors.{Error, is_nil, ok, Result, err, invocation, proper, cancelled, reporting}
use verify.Prelude.{
  List, [], all, arith, false, if_elim, inl, inr, length, not, refl, subst, sym, true, ◌∷◌, ◌≡◌,
  ◌⊎◌,
}
use verify.Text.{Bytes}
use verify.Text.Utf8.{Unicode}
use verify.ExactWrite.{Writer}
use verify.Plan.{Control, Plan, Profile}
use verify.Plan.Admit.{Platform}
use verify.Plan.Whole.{admit, selected_profile}
use verify.Execute.{
  ControlResult, Machine, Report, State, is_pass, state_pass, state_invocation_error,
  state_cancelled,
}
use verify.Execute.Control.Complete.{AllRan, execute_controls-AllRan}
use verify.Execute.Control.Trace.{
  Executed, Executed-Agrees, complete, interrupted, passed, stopped, IsRun, execute_controls-IsRun,
}
use verify.Execute.Run.{
  summarise, summarised, timed, execute, refused, report_of, run_admitted, run_polled, run_profile,
  run_selected, timed_controls,
}
use verify.Plan.Names.{valid_identifier}
use verify.Plan.Whole.Refusals.{admit-proper}
use verify.Execute.Control.{execute_controls}

Executed-nil :
    {controls : List Control} {results : List ControlResult} {state : State} {error : Error}
    → Executed controls results state error
    → is_nil error ≡ true
    → state ≡ state_pass
Executed-nil complete h = refl
Executed-nil (interrupted controls f) h = absurd (ground arith)
Executed-nil (stopped control controls result i f g) h = absurd (ground arith)
Executed-nil (passed control result i f e) h = Executed-nil e h

module _ (w : Writer) (p : Platform) (u : Unicode) (m : Machine w) where
  open w use {Sink}
  open m use {context_error}

  -- All controls of a profile have run, the first from some state and each other one from the state that
  -- the one before it has left.
  abbrev pub HasRunAll : Profile → List ControlResult → Type 0
  HasRunAll profile results =
      (s : Sink) × AllRan w u m 0 (length profile.controls) profile.controls results s

  -- A complete run: the plan was admitted, the processes of all controls of the chosen profile have run,
  -- in order, and the report says of each that it has passed.
  pub record IsComplete (root : Bytes) (plan : Plan) (profile_id : Bytes) (r : Report)
      : Type 0 where
    pub admitted : Plan
    pub profile : Profile
    pub first : Sink
    pub last : Sink
    pub admits : admit p u context_error root plan first ≡ (ok admitted, last)
    pub selects : selected_profile admitted.profiles profile_id ≡ ok profile
    pub trace : Executed profile.controls r.controls state_pass []
    pub ran : HasRunAll profile r.controls
    pub names : (r.plan ≡ admitted.id) × (r.profile ≡ profile.id) × (r.state ≡ state_pass)

  -- A report and an error that agree: both tell of a failure, or the run is complete.
  abbrev pub Verdict : Bytes → Plan → Bytes → Report × Error → Type 0
  Verdict root plan profile_id (r, e) =
      ((is_pass r.state ≡ false) × (is_nil e ≡ false))
      ⊎ ((e ≡ []) × IsComplete root plan profile_id r)

  module _ (root : Bytes) (plan : Plan) (profile_id : Bytes) where
    timed-fails :
        (t : Machine.Time m) (r : Report) (e : Error) (s : Sink)
        → is_pass r.state ≡ false
        → is_nil e ≡ false
        → Verdict root plan profile_id (timed w p u m t r e s).0
    unfolding timed
    timed-fails t r e s h k = inl (h, k)

    module _ (admitted : Plan) (profile : Profile) (first last : Sink)
        (admits : admit p u context_error root plan first ≡ (ok admitted, last))
        (selects : selected_profile admitted.profiles profile_id ≡ ok profile) where
      summarised-Verdict :
          (r : Report) (x : Error × Sink)
          → Executed profile.controls r.controls r.state []
          → HasRunAll profile r.controls
          → r.plan ≡ admitted.id
          → r.profile ≡ profile.id
          → Verdict root plan profile_id (summarised w p u m r x).0
      unfolding summarised is_pass
      summarised-Verdict r (c ∷ cs, s) t all a b = inl (refl, refl)
      summarised-Verdict r ([], s) t all a b =
          let same = Executed-nil t refl in
          inr (
            refl,
            record {
              admitted = admitted;
              profile = profile;
              first = first;
              last = last;
              admits = admits;
              selects = selects;
              trace = subst (λ z. Executed profile.controls r.controls z []) same t;
              ran = all;
              names = (a, b, same);
            },
          )

      summarise-Verdict :
          (x : (Report × Error) × Sink)
          → Executed profile.controls x.0.0.controls x.0.0.state x.0.1
          → (x.0.1 ≡ [] → HasRunAll profile x.0.0.controls)
          → x.0.0.plan ≡ admitted.id
          → x.0.0.profile ≡ profile.id
          → Verdict root plan profile_id (summarise w p u m profile x).0
      unfolding summarise
      summarise-Verdict ((r, c ∷ cs), s) t all a b = inl (Executed-Agrees t, refl)
      summarise-Verdict ((r, []), s) t all a b = summarised-Verdict r _ t (all refl) a b

      timed_controls-Verdict :
          (t : Machine.Time m) (x : (Report × Error) × Sink)
          → IsRun w u m profile.controls
              (report_of w p u m admitted.id profile.id state_pass)
              x.0.0
              x.0.1
          → (x.0.1 ≡ [] → HasRunAll profile x.0.0.controls)
          → Verdict root plan profile_id (summarise w p u m profile (timed_controls w p u m t x)).0
      unfolding timed_controls timed
      timed_controls-Verdict t ((r, e), s) run all =
          summarise-Verdict (timed_controls w p u m t ((r, e), s))
            (subst (λ z. Executed profile.controls z r.state e) (sym run.appended) run.trace) all
            run.names.0 run.names.1

      run_profile-Verdict :
          (t : Machine.Time m) (x : Error × Sink)
          → Verdict root plan profile_id (run_profile w p u m t admitted.id profile x).0
      unfolding run_profile is_pass
      run_profile-Verdict t (c ∷ cs, s) =
          timed-fails t (report_of w p u m admitted.id profile.id state_invocation_error)
            (invocation ∷ reporting ∷ c ∷ cs) s refl refl
      run_profile-Verdict t ([], s) =
          let start = report_of w p u m admitted.id profile.id state_pass in
          let count = length profile.controls in
          timed_controls-Verdict t (execute_controls w u m 0 count profile.controls start s)
            (execute_controls-IsRun w u m 0 count profile.controls start s refl)
            (λ e.
              let (results, appended, ran) =
                execute_controls-AllRan w u m 0 count profile.controls start s e in
              (s, subst (λ z. AllRan w u m 0 count profile.controls z s) (sym appended) ran))

    run_selected-Verdict :
        (t : Machine.Time m) (admitted : Plan) (first last s : Sink) (x : Result Profile)
        → admit p u context_error root plan first ≡ (ok admitted, last)
        → selected_profile admitted.profiles profile_id ≡ x
        → Verdict root plan profile_id (run_selected w p u m t admitted.id profile_id x s).0
    unfolding run_selected is_pass
    run_selected-Verdict t admitted first last s (err e) h k =
        timed-fails t (report_of w p u m admitted.id profile_id state_invocation_error)
          (invocation ∷ e) s refl refl
    run_selected-Verdict t admitted first last s (ok profile) h k =
        run_profile-Verdict admitted profile first last h k t _

    refused-Verdict :
        (t : Machine.Time m) (e : Error) (x : Error × Sink)
        → is_nil e ≡ false
        → Verdict root plan profile_id (refused w p u m t plan.id profile_id e x).0
    unfolding refused is_pass
    refused-Verdict t e (c ∷ cs, s) h =
        timed-fails t (report_of w p u m plan.id profile_id state_cancelled) (cancelled ∷ c ∷ cs) s
          refl refl
    refused-Verdict t e ([], s) h =
        timed-fails t (report_of w p u m plan.id profile_id state_invocation_error) e s refl h

    run_admitted-Verdict :
        (t : Machine.Time m) (first : Sink) (x : Result Plan × Sink)
        → admit p u context_error root plan first ≡ x
        → proper x.0 ≡ true
        → Verdict root plan profile_id (run_admitted w p u m t plan.id profile_id x).0
    unfolding run_admitted
    run_admitted-Verdict t first (err e, s) h k =
        refused-Verdict t e (context_error s) (ground arith)
    run_admitted-Verdict t first (ok admitted, s) h k =
        run_selected-Verdict t admitted first s s (selected_profile admitted.profiles profile_id) h
          refl

    run_polled-Verdict :
        (t : Machine.Time m) (x : Error × Sink)
        → Verdict root plan profile_id (run_polled w p u m t root plan profile_id x).0
    unfolding run_polled is_pass
    run_polled-Verdict t (c ∷ cs, s) =
        timed-fails t (report_of w p u m plan.id profile_id state_cancelled) (cancelled ∷ c ∷ cs) s
          refl refl
    run_polled-Verdict t ([], s) =
        run_admitted-Verdict t s (admit p u context_error root plan s) refl
          (admit-proper p u context_error root plan s)

    -- `execute` either tells of a failure by its report and by its error, or returns a nil error and a
    -- report that says PASS; then the plan was admitted, and for all controls of the chosen profile, in
    -- their order, the process was started, ended by itself and in time with the status 0, and printed
    -- what the control expects.
    pub execute-Verdict :
        (s : Sink) → Verdict root plan profile_id (execute w p u m root plan profile_id s).0
    unfolding execute is_pass
    execute-Verdict s =
        let (t, s1) = Machine.clock m s in
        if_elim (λ (x : (Report × Error) × Sink). Verdict root plan profile_id x.0)
          (not (valid_identifier profile_id))
          (λ _.
            timed-fails t (report_of w p u m plan.id profile_id state_invocation_error)
              (invocation ∷ []) s1 refl refl)
          (λ _. run_polled-Verdict t (context_error s1))
