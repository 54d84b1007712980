-- ===== src/Execute/Control/Complete.antt =====
-- execute.go: what has happened when `executeControls` returns a nil error.
use verify.Prelude.{
  List, [], ap, append-nil, append_assoc, arith, refl, sym, ℕ, ◌++◌, ◌+◌, ◌∙◌, ◌∷◌, ◌≡◌,
}
use verify.Errors.{Error}
use verify.Text.Utf8.{Unicode}
use verify.ExactWrite.{Writer}
use verify.Plan.{Control}
use verify.Execute.{ControlResult, Machine, Report}
use verify.Execute.Control.{Ran, after_control, after_poll, execute_control, execute_controls}
use verify.Execute.Control.Passed.{HasRun, execute_control-HasRun}

module _ (w : Writer) (u : Unicode) (m : Machine w) where
  open w use {Sink}

  -- Controls that have all run, one behind the other, each between two polls of the context and from the
  -- state that the one before it has left.
  abbrev pub AllRan : ℕ → ℕ → List Control → List ControlResult → Sink → Type 0
  AllRan index total [] [] s = Unit
  AllRan index total [] (r ∷ rs) s = ⊥
  AllRan index total (k ∷ ks) [] s = ⊥
  AllRan index total (k ∷ ks) (r ∷ rs) s =
      let s1 = (Machine.context_error m s).1 in
      let q = execute_control w u m k (index + 1) total s1 in
      ((Machine.context_error m s).0 ≡ [])
      × (q.0 ≡ (r, []))
      × HasRun w u m k r s1
      × AllRan (index + 1) total ks rs q.1

  after_poll-nil :
      (report : Report) (more : Sink → (Report × Error) × Sink) (x : Error × Sink)
      → (after_poll w u m report more x).0.1 ≡ []
      → (x.0 ≡ []) × (after_poll w u m report more x ≡ more x.1)
  unfolding after_poll
  after_poll-nil report more (c ∷ cs, s) h = absurd (ground arith)
  after_poll-nil report more ([], s) h = (refl, refl)

  after_control-nil :
      (report : Report) (more : Report → Sink → (Report × Error) × Sink) (x : Ran Sink)
      → (after_control w u m report more x).0.1 ≡ []
      → (x.0.1 ≡ [])
        × (after_control w u m report more x
            ≡ more (record report { controls = report.controls ++ x.0.0 ∷ [] }) x.1)
  unfolding after_control
  after_control-nil report more ((result, c ∷ cs), s) h = absurd (ground arith)
  after_control-nil report more ((result, []), s) h = (refl, refl)

  -- Without an error, `executeControls` has run the process of every control, in order.
  pub execute_controls-AllRan :
      (index total : ℕ) (ks : List Control) (r : Report) (s : Sink)
      → (execute_controls w u m index total ks r s).0.1 ≡ []
      → (results : List ControlResult) × (Report.controls
            (execute_controls w u m index total ks r s).0.0
          ≡ r.controls ++ results)
        × AllRan index total ks results s
  unfolding execute_controls
  execute_controls-AllRan index total [] r s h =
      let (polled, same) = after_poll-nil r (λ s1. ((r, []), s1)) (Machine.context_error m s) h in
      (
        [],
        ap (λ (x : (Report × Error) × Sink). x.0.0.controls) same ∙ sym (append-nil r.controls),
        tt,
      )
  execute_controls-AllRan index total (k ∷ ks) r s h =
      let s1 = (Machine.context_error m s).1 in
      let q = execute_control w u m k (index + 1) total s1 in
      let more = execute_controls w u m (index + 1) total ks in
      let (polled, same) =
        after_poll-nil r
          (λ s1. after_control w u m r more (execute_control w u m k (index + 1) total s1))
          (Machine.context_error m s) h in
      let (clear, next) =
        after_control-nil r more q (sym (ap (λ (x : (Report × Error) × Sink). x.0.1) same) ∙ h) in
      let whole = same ∙ next in
      let (results, appended, ran) =
        execute_controls-AllRan (index + 1) total ks
          (record r { controls = r.controls ++ q.0.0 ∷ [] }) q.1
          (sym (ap (λ (x : (Report × Error) × Sink). x.0.1) whole) ∙ h) in
      (
        q.0.0 ∷ results,
        ap (λ (x : (Report × Error) × Sink). x.0.0.controls) whole
            ∙ appended
            ∙ append_assoc r.controls (q.0.0 ∷ []) results,
        (
          polled,
          ap (λ (e : Error). (q.0.0, e)) clear,
          execute_control-HasRun w u m k (index + 1) total s1 clear,
          ran,
        ),
      )
