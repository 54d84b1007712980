-- ===== src/Tests/Runs.antt =====
-- Tests of execute.go.
use verify.Plan.Aggregate.{valid_plan_aggregate, valid_plan_header}
use verify.Plan.Names.{display_text, valid_identifier}
use verify.Plan.Strings.{bounded_strings}
use verify.Text.Utf8.{valid_string}
use verify.Errors.{ok}
use verify.Prelude.{
  [], false, length, none, pos, refl, some, true, ℕ, ◌++◌, ◌+◌, ◌-◌, ◌∷◌, ◌≡◌, ◌⊎◌,
}
use verify.Text.{codes, has_prefix, Bytes, equal}
use verify.Plan.Whole.{admit}
use verify.Plan.Whole.Admitted.{IsAdmitted, admit-ok}
use verify.Plan.{Control, Plan}
use verify.Plan.Admit.{Platform, admit_command, admit_control, member}
use verify.Execute.{Machine, Report, outcome_completed, state_pass}
use verify.Execute.Control.{execute_control, execute_controls}
use verify.Execute.Control.Agreement.{IsResultOf, execute_control-IsResultOf}
use verify.Execute.Control.Trace.{IsRun, execute_controls-IsRun}
use verify.Execute.Run.{execute}
use verify.Execute.Run.Verdict.{Verdict, execute-Verdict, IsComplete}
use verify.Exit.{execute_verification}
use verify.Exit.Codes.{IsFailure, execute_verification-IsComplete}
use verify.Tests.{ascii, pairs}

-- A platform where every path is clean and every file is there.
abbrev unix : Platform
unix = record {
  separator = b'/';
  is_abs = λ path. has_prefix path (codes "/");
  clean = λ path. path;
  from_slash = λ path. path;
  join = λ root path. root ++ codes "/" ++ path;
  eval_symlinks = λ path. ok path;
  is_regular = λ path. ok true;
  is_directory = λ path. ok true;
  is_directory_in = λ root path. ok true;
}

-- A machine on which every process exits at once with the status 0.
abbrev quiet : Machine pairs
quiet = record {
  context_error = λ s. ([], s);
  with_timeout = λ timeout s. s;
  control_error = λ s. ([], s);
  cancel = λ s. s;
  run = λ called s. (
    (
      record {
        started = true;
        kind = outcome_completed;
        exit_code = pos 0;
        stdout = [];
        stderr = [];
      },
      [],
    ),
    s,
  );
  Time = ℕ;
  clock = λ s. (length s, s);
  since = λ now started. pos (now - started);
  decimal = λ n. (b'0' + n) ∷ [];
  format_duration = λ d. codes "0.00ns";
}

-- A control in a directory.
abbrev vet_in : Bytes → Control
vet_in directory = record {
  id = codes "vet";
  name = codes "Vet";
  command = record {
    executable = codes "/bin/go";
    arguments = codes "vet" ∷ [];
    directory = directory;
    environment = [];
    input = [];
    timeout = pos 1000;
    output_limit = pos 1000;
    show_success_output = false;
    expected_stdout = some [];
    expected_stderr = none;
  };
}

abbrev vet : Control
vet = vet_in []

abbrev fast_in : Bytes → Plan
fast_in directory = record {
  id = codes "plan";
  profiles = record { id = codes "fast"; controls = vet_in directory ∷ [] } ∷ [];
}

abbrev fast : Plan
fast = fast_in []

execute_control-IsResultOf_example :
    let q = (execute_control pairs ascii quiet vet 1 2 []).0 in IsResultOf vet q.0 q.1
execute_control-IsResultOf_example = execute_control-IsResultOf pairs ascii quiet vet 1 2 []

abbrev empty_report : Report
empty_report = record {
  plan = [];
  profile = [];
  state = state_pass;
  controls = [];
  duration = pos 0;
}

execute_controls-IsRun_example :
    let q = (execute_controls pairs ascii quiet 0 2 (vet ∷ vet ∷ []) empty_report []).0 in
    IsRun pairs ascii quiet (vet ∷ vet ∷ []) empty_report q.0 q.1
execute_controls-IsRun_example =
    execute_controls-IsRun pairs ascii quiet 0 2 (vet ∷ vet ∷ []) empty_report [] refl

execute-Verdict_example :
    Verdict pairs unix ascii quiet
      (codes "/src")
      fast
      (codes "fast")
      (execute pairs unix ascii quiet (codes "/src") fast (codes "fast") []).0
execute-Verdict_example =
    execute-Verdict pairs unix ascii quiet (codes "/src") fast (codes "fast") []

execute_verification-IsComplete_example :
    let q =
      execute_verification pairs pairs unix ascii quiet
        (λ e. codes "error")
        (codes "/src")
        fast
        (codes "fast")
        []
        [] in
    IsFailure q.0.0
    ⊎ ((q.0.0 ≡ 0)
        × IsComplete pairs unix ascii quiet
            (codes "/src")
            fast
            (codes "fast")
            (execute pairs unix ascii quiet (codes "/src") fast (codes "fast") []).0.0)
execute_verification-IsComplete_example =
    execute_verification-IsComplete pairs pairs unix ascii quiet (λ e. codes "error") (codes "/src")
      fast (codes "fast") [] []

admit-ok_example :
    IsAdmitted unix ascii (λ (s : ℕ). ([], s + 1)) (codes "/src") fast (fast_in (codes "/src"))
unfolding admit valid_plan_header has_prefix valid_identifier valid_plan_aggregate member
    admit_control display_text valid_string admit_command equal bounded_strings
admit-ok_example = admit-ok unix ascii (λ s. ([], s + 1)) (codes "/src") fast 0 refl
