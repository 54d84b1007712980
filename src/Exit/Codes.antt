-- ===== src/Exit/Codes.antt =====
-- cmd/secverify/execution.go: the exit code is 0 for a run that is complete, and for no other.
use verify.Prelude.{
  [], arith, false, if_elim, if◌then◌else◌, inl, inr, length, not, refl, ℕ, ◌==◌, ◌||◌, ◌∷◌, ◌≡◌,
  ◌≤◌, ◌⊎◌,
}
use verify.Errors.{Cause, Error, is, is_nil, reporting}
use verify.Text.{Bytes}
use verify.Text.Utf8.{Unicode}
use verify.ExactWrite.{Writer}
use verify.Plan.{Plan}
use verify.Plan.Admit.{Platform}
use verify.Execute.{Machine, Report}
use verify.Execute.Run.{execute}
use verify.Execute.Run.Verdict.{IsComplete, execute-Verdict}
use verify.Exit.{
  conclude, execute_verification, exit_for, exit_invocation, report_execution_error, unless_lost,
  write_failure,
}

-- A code that tells of a failure.
abbrev pub IsFailure : ℕ → Type 0
IsFailure code = (1 ≤ code) × (code ≤ 4)

exit_for-IsFailure : (e : Error) → IsFailure (exit_for e)
unfolding exit_for
exit_for-IsFailure e = ground arith

module _ (stderr : Writer) where
  open stderr use {Sink}

  unless_lost-IsFailure :
      (code : ℕ) (x : Error × Sink) → IsFailure code → IsFailure (unless_lost stderr code x).0
  unless_lost-IsFailure code ([], s) h = h
  unless_lost-IsFailure code (c ∷ cs, s) h = (omega arith, omega arith)

  reporting-IsFailure :
      (e : Error) → IsFailure (if is e reporting then exit_invocation else exit_for e)
  reporting-IsFailure e =
      if_elim IsFailure (is e reporting) (λ h. (omega arith, omega arith))
        (λ h. exit_for-IsFailure e)

  conclude-IsFailure :
      (u : Unicode) (message : Error → Bytes) (report : Report) (c : Cause) (cs : Error) (s : Sink)
      → IsFailure (conclude stderr u message (report, c ∷ cs) s).0
  unfolding conclude report_execution_error write_failure
  conclude-IsFailure u message report c cs s =
      if_elim (λ (x : ℕ × Sink). IsFailure x.0)
        (not (length report.controls == 0) || is (c ∷ cs) reporting)
        (λ h. unless_lost-IsFailure _ _ (reporting-IsFailure (c ∷ cs)))
        (λ h. unless_lost-IsFailure _ _ (exit_for-IsFailure (c ∷ cs)))

  concluded :
      {A : Type 0} (u : Unicode) (message : Error → Bytes) (x : Report × Error) (s : Sink)
      → (is_nil x.1 ≡ false) ⊎ ((x.1 ≡ []) × A)
      → IsFailure (conclude stderr u message x s).0 ⊎ (((conclude stderr u message x s).0 ≡ 0) × A)
  unfolding conclude
  concluded u message (report, []) s (inl h) = absurd (ground arith)
  concluded u message (report, []) s (inr h) = inr (refl, h.1)
  concluded u message (report, c ∷ cs) s h = inl (conclude-IsFailure u message report c cs s)

-- The exit code of `executeVerification` is 0 only for a run that is complete: the plan was admitted,
-- and for all controls of the chosen profile, in their order, the process was started, ended by itself
-- and in time with the status 0, and printed what the control expects. Any other code is from 1 to 4.
pub execute_verification-IsComplete :
    (w stderr : Writer) (p : Platform) (u : Unicode) (m : Machine w) (message : Error → Bytes)
    (root : Bytes) (plan : Plan) (profile : Bytes) (out : Writer.Sink w) (s : Writer.Sink stderr)
    → IsFailure (execute_verification w stderr p u m message root plan profile out s).0.0
      ⊎ (((execute_verification w stderr p u m message root plan profile out s).0.0 ≡ 0)
          × IsComplete w p u m root plan profile (execute w p u m root plan profile out).0.0)
unfolding execute_verification
execute_verification-IsComplete w stderr p u m message root plan profile out s =
    let x = (execute w p u m root plan profile out).0 in
    concluded stderr u message x s
      (elim (execute-Verdict w p u m root plan profile out) [ inl h ↦ inl h.1 | inr h ↦ inr h ])
