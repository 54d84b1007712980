-- ===== src/Execute/Control/Trace.antt =====
-- execute.go: the controls that `executeControls` has run, as a trace of their results.
use verify.Errors.{Error, is_nil}
use verify.Prelude.{
  List, [], append-nil, append_assoc, false, refl, subst, sym, true, ℕ, ◌++◌, ◌∙◌, ◌∷◌, ◌≡◌, ◌+◌,
}
use verify.Text.Utf8.{Unicode}
use verify.ExactWrite.{Writer}
use verify.Plan.{Control}
use verify.Execute.{ControlResult, Machine, Report, State, is_pass, state_cancelled, state_pass}
use verify.Execute.Control.{Ran, after_control, after_poll, execute_controls, execute_control}
use verify.Execute.Control.Agreement.{Agrees, IsResultOf, execute_control-IsResultOf}

-- The results of controls that run in order, up to the state and the error that they end with: all of
-- them pass, the context interrupts between two of them, or one of them is the last and does not pass.
pub data Executed : List Control → List ControlResult → State → Error → Type 0 where
  complete : Executed [] [] state_pass []
  interrupted :
      (controls : List Control) {error : Error}
      → is_nil error ≡ false
      → Executed controls [] state_cancelled error
  stopped :
      (control : Control) (controls : List Control) (result : ControlResult) {error : Error}
      → result.id ≡ control.id
      → is_pass result.state ≡ false
      → is_nil error ≡ false
      → Executed (control ∷ controls) (result ∷ []) result.state error
  passed :
      (control : Control) (result : ControlResult) {controls : List Control}
      {results : List ControlResult} {state : State} {error : Error}
      → result.id ≡ control.id
      → is_pass result.state ≡ true
      → Executed controls results state error
      → Executed (control ∷ controls) (result ∷ results) state error

pub Executed-Agrees :
    {controls : List Control} {results : List ControlResult} {state : State} {error : Error}
    → Executed controls results state error
    → Agrees state error
unfolding is_pass
Executed-Agrees complete = refl
Executed-Agrees (interrupted controls h) = sym h
Executed-Agrees (stopped control controls result i f h) = f ∙ sym h
Executed-Agrees (passed control result i f h) = Executed-Agrees h

module _ (w : Writer) (u : Unicode) (m : Machine w) where
  open w use {Sink}

  -- What a run of the loop has added to a report.
  pub record IsRun (controls : List Control) (r r' : Report) (error : Error) : Type 0 where
    pub results : List ControlResult
    pub appended : r'.controls ≡ r.controls ++ results
    pub trace : Executed controls results r'.state error
    pub names : (r'.plan ≡ r.plan) × (r'.profile ≡ r.profile)

  after_poll-IsRun :
      (controls : List Control) (r : Report) (more : Sink → (Report × Error) × Sink)
      (x : Error × Sink)
      → ((s : Sink) → IsRun controls r (more s).0.0 (more s).0.1)
      → let q = (after_poll w u m r more x).0 in IsRun controls r q.0 q.1
  unfolding after_poll
  after_poll-IsRun controls r more (c ∷ cs, s) h = record {
    results = [];
    appended = sym (append-nil r.controls);
    trace = interrupted controls refl;
    names = (refl, refl);
  }
  after_poll-IsRun controls r more ([], s) h = h s

  after_control-IsRun :
      (control : Control) (controls : List Control) (r : Report)
      (more : Report → Sink → (Report × Error) × Sink) (x : Ran Sink)
      → IsResultOf control x.0.0 x.0.1
      → ((result : ControlResult) (s : Sink)
          → let r' = record r { controls = r.controls ++ result ∷ [] } in
            IsRun controls r' (more r' s).0.0 (more r' s).0.1)
      → let q = (after_control w u m r more x).0 in IsRun (control ∷ controls) r q.0 q.1
  unfolding after_control
  after_control-IsRun control controls r more ((result, c ∷ cs), s) a h = record {
    results = result ∷ [];
    appended = refl;
    trace = stopped control controls result a.0 a.1 refl;
    names = (refl, refl);
  }
  after_control-IsRun control controls r more ((result, []), s) a h =
      let i = h result s in
      record {
        results = result ∷ i.results;
        appended = i.appended ∙ append_assoc r.controls (result ∷ []) i.results;
        trace = passed control result a.0 a.1 i.trace;
        names = i.names;
      }

  -- `executeControls`, from a report that says PASS, appends the results of a prefix of the controls in
  -- their order; all of them passed, but the last may be the one that stopped the loop, whose state is
  -- the state of the report; the loop ends with a nil error only when every control has passed.
  pub execute_controls-IsRun :
      (index total : ℕ) (controls : List Control) (r : Report) (s : Sink)
      → r.state ≡ state_pass
      → let q = (execute_controls w u m index total controls r s).0 in IsRun controls r q.0 q.1
  unfolding execute_controls
  execute_controls-IsRun index total [] r s p =
      after_poll-IsRun [] r (λ s1. ((r, []), s1)) (Machine.context_error m s)
        (λ s1. record {
          results = [];
          appended = sym (append-nil r.controls);
          trace = subst (λ z. Executed [] [] z []) (sym p) complete;
          names = (refl, refl);
        })
  execute_controls-IsRun index total (control ∷ controls) r s p =
      after_poll-IsRun (control ∷ controls) r _ (Machine.context_error m s) (λ s1.
        after_control-IsRun control controls r (execute_controls w u m (index + 1) total controls)
          (execute_control w u m control (index + 1) total s1)
          (execute_control-IsResultOf w u m control (index + 1) total s1)
          (λ result s2. execute_controls-IsRun (index + 1) total controls _ s2 p))
