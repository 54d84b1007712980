-- ===== src/Campaign/Control.antt =====
-- goverify/campaign.go: the run of one control, and the diagnostics that are kept of it.
use verify.Prelude.{
  Option, [], arith, drop, if_elim, if◌then◌else◌, leb, length, length-append, length-drop,
  length-take, ltb, none, not, some, take, true, ℕ, ◌&&◌, ◌*◌, ◌++◌, ◌-◌, ◌/◌, ◌^◌, ◌||◌, ◌∷◌, ◌≡◌,
  ◌≤◌, ap, false, inl, inr, refl, sym, ◌∙◌, ◌⊎◌,
}
use verify.Errors.{Error, fuzz_campaign, is_nil, Cause, Error-cases}
use verify.Text.{Bytes, codes}
use verify.Text.Utf8.{Unicode}
use verify.Execute.{Outcome, is_completed, is_zero}
use verify.Currency.Annotation.{trim_space}
use verify.Campaign.{FuzzOutcome, started}
use verify.Campaign.Output.{Durations, terminal_fuzz_executions}

-- `MaxFuzzDiagnosticBytes`
abbrev pub max_fuzz_diagnostic_bytes : ℕ
max_fuzz_diagnostic_bytes = 4 * 2 ^ 10

abbrev pub marker : Bytes
marker = codes "\n... truncated ...\n"

-- The bytes kept before the marker, and those behind it.
abbrev pub kept_head : ℕ
kept_head = (max_fuzz_diagnostic_bytes - length marker) / 2

abbrev pub kept_tail : ℕ
kept_tail = max_fuzz_diagnostic_bytes - length marker - kept_head

unfoldable pub truncated : Bytes → Bytes
truncated value =
    if leb (length value) max_fuzz_diagnostic_bytes
    then value
    else take kept_head value ++ marker ++ drop (length value - kept_tail) value

-- `diagnosticPrefix`
unfoldable pub diagnostic_prefix : Unicode → Bytes → Bytes
unfolding truncated
diagnostic_prefix u value = truncated (trim_space u value)

-- The error by the exit of the process.
unfoldable pub exit_error : Outcome → Error → Error
unfolding is_completed
exit_error result e =
    if is_nil e
      && (not result.started || not (is_zero result.exit_code) || not (is_completed result.kind))
    then fuzz_campaign ∷ []
    else e

-- The executions that are told, if there is no error.
abbrev pub told : Durations → Outcome → Error → Option ℕ
told parse_duration result [] = terminal_fuzz_executions parse_duration result.stdout
told parse_duration result (c ∷ cs) = none

-- The error by the number of executions.
unfoldable pub executions_error : ℕ → Option ℕ → Error → Error
executions_error minimum executions (c ∷ cs) = c ∷ cs
executions_error minimum none [] = fuzz_campaign ∷ []
executions_error minimum (some n) [] = if ltb n minimum then fuzz_campaign ∷ [] else []

abbrev pub or_zero : Option ℕ → ℕ
or_zero none = 0
or_zero (some n) = n

-- The result as it is kept.
unfoldable pub kept_result : Unicode → Error → Outcome → Outcome
unfolding diagnostic_prefix
kept_result u [] result = record result { stdout = []; stderr = [] }
kept_result u (c ∷ cs) result = record result {
  stdout = diagnostic_prefix u result.stdout;
  stderr = diagnostic_prefix u result.stderr;
}

-- `runFuzzControl` behind the process.
unfoldable pub fuzz_outcome : Unicode → Durations → ℕ → Outcome × Error → FuzzOutcome
unfolding exit_error executions_error kept_result
fuzz_outcome u parse_duration minimum (result, run_error) =
    let e = exit_error result run_error in
    let executions = told parse_duration result e in
    let last = executions_error minimum executions e in
    record { result = kept_result u last result; error = last; executions = or_zero executions }

around :
    (before after : Bytes)
    → length before ≤ 2038
    → length after ≤ 2039
    → length (before ++ marker ++ after) ≤ 4096
around before after h k =
    omega (arith, length-append (before ++ marker) after, length-append before marker)

length-truncated : (value : Bytes) → length (truncated value) ≤ 4096
unfolding truncated
length-truncated value =
    if_elim (λ (v : Bytes). length v ≤ 4096) (leb (length value) max_fuzz_diagnostic_bytes)
      (λ h. ground arith)
      (λ h.
        let long : 4097 ≤ length value = ground arith in
        around (take kept_head value) (drop (length value - kept_tail) value)
          (omega (arith, length-take kept_head value))
          (omega (arith, long, length-drop (length value - kept_tail) value)))

-- A control that has passed: its process started, ran to its end with the status 0, and told of at
-- least as many executions as are asked for.
pub record HasPassed (parse_duration : Durations) (minimum : ℕ) (result : Outcome)
    (run_error : Error) (o : FuzzOutcome) : Type 0 where
  pub no_run_error : run_error ≡ []
  pub exited :
      (result.started ≡ true)
      × (is_zero result.exit_code ≡ true)
      × (is_completed result.kind ≡ true)
  pub reported : terminal_fuzz_executions parse_duration result.stdout ≡ some o.executions
  pub enough : minimum ≤ o.executions

exit_error-nil :
    (result : Outcome) (e : Error)
    → exit_error result e ≡ []
    → (e ≡ [])
      × (result.started ≡ true)
      × (is_zero result.exit_code ≡ true)
      × (is_completed result.kind ≡ true)
unfolding exit_error
exit_error-nil result [] h =
    let passed : (not result.started
          || not (is_zero result.exit_code)
          || not (is_completed result.kind))
        ≡ false =
      ground arith in
    (refl, ground arith, ground arith, ground arith)
exit_error-nil result (c ∷ cs) h = absurd (ground arith)

executions_error-nil :
    (minimum : ℕ) (o : Option ℕ) (e : Error)
    → executions_error minimum o e ≡ []
    → (e ≡ []) × (o ≡ some (or_zero o)) × (minimum ≤ or_zero o)
unfolding executions_error
executions_error-nil minimum o (c ∷ cs) h = absurd (ground arith)
executions_error-nil minimum none [] h = absurd (ground arith)
executions_error-nil minimum (some n) [] h = (refl, refl, ground arith)

kept-bounded :
    (u : Unicode) (c : Cause) (cs : Error) (result : Outcome)
    → (length (Outcome.stdout (kept_result u (c ∷ cs) result)) ≤ 4096)
      × (length (Outcome.stderr (kept_result u (c ∷ cs) result)) ≤ 4096)
unfolding kept_result diagnostic_prefix
kept-bounded u c cs result =
    (length-truncated (trim_space u result.stdout), length-truncated (trim_space u result.stderr))

-- `runFuzzControl` returns a nil error only for a control that has passed; with another error, it
-- keeps at most `MaxFuzzDiagnosticBytes` of each output.
pub fuzz_outcome-HasPassed :
    (u : Unicode) (parse_duration : Durations) (minimum : ℕ) (result : Outcome) (run_error : Error)
    → let o = fuzz_outcome u parse_duration minimum (result, run_error) in
      ((is_nil o.error ≡ false)
        × (length (Outcome.stdout o.result) ≤ 4096)
        × (length (Outcome.stderr o.result) ≤ 4096))
      ⊎ ((o.error ≡ []) × HasPassed parse_duration minimum result run_error o)
unfolding fuzz_outcome
fuzz_outcome-HasPassed u parse_duration minimum result run_error =
    let e = exit_error result run_error in
    let executions = told parse_duration result e in
    elim (Error-cases (executions_error minimum executions e)) [
      | inr (c, cs, failing) ↦
          let b = kept-bounded u c cs result in rw failing (inl (refl, b.0, b.1))
      | inl quiet ↦
          let (no_exit, reported, enough) = executions_error-nil minimum executions e quiet in
          let (no_error, started, zero_exit, completed) = exit_error-nil result run_error no_exit in
          inr (
            quiet,
            record {
              no_run_error = no_error;
              exited = (started, zero_exit, completed);
              reported = ap (told parse_duration result) (sym no_exit) ∙ reported;
              enough = enough;
            },
          )
    ]
