-- ===== src/Tests/Campaigns.antt =====
-- Tests of goverify/campaign.go.
use verify.Prelude.{
  List, [], any, arith, false, length, min, none, pos, refl, some, true, ◌*◌, ◌+◌, ◌<◌, ◌∷◌, ◌≡◌,
  ◌≢◌, ◌≤◌, ◌⊎◌,
}
use verify.Errors.{Error, failed, is_nil, process_cancelled}
use verify.Text.{codes, cut, cut_last, cut_prefix, cut_suffix, has_prefix}
use verify.Tests.{ascii}
use verify.Campaign.Output.{terminal_fuzz_executions}
use verify.Campaign.Control.{HasPassed, fuzz_outcome, fuzz_outcome-HasPassed}
use verify.Campaign.{
  FuzzOutcome, Move, Pool, Steps, Worker, at_start, finish, finishes, goes_on, moves, new_pool,
  polling, returned, runs_out, step, takes,
}
use verify.Campaign.Runs.{IsCompleteRun}
use verify.Campaign.Progress.{moves_bounded, moves_of, pool_moves, work}
use verify.Campaign.Failure.{
  IsFirst, cleanup_failed, deterministic_fuzz_failure, deterministic_fuzz_failure-IsFirst,
  failed_by_itself, has_failed,
}
use verify.Campaign.Settle.{no_outcome, settle, settle-IsCompleteRun}
use verify.Execute.{Outcome, outcome_completed}
use verify.Decimal.{canonical_decimal, unsigned_from}
use verify.Workflow.Inspect.Source.{trim_return}

abbrev done : Error → FuzzOutcome
done e = record no_outcome { error = e; executions = 7 }

-- One control and two jobs: one worker, which runs the control and leaves.
abbrev last_pool : Pool
last_pool = record {
  next = 2;
  outcomes = (0, done []) ∷ [];
  first_index = none;
  stopped = false;
  workers = returned ∷ [];
}

abbrev whole_run : Steps 1 (new_pool 2 1) last_pool
unfolding finish
whole_run =
    step
      (step
        (step
          (step (step at_start (moves (goes_on [] [] refl refl)))
            (moves (takes [] [] refl (omega arith))))
          (moves (finishes [] [] 0 (done []) refl)))
        (moves (goes_on [] [] refl refl)))
      (moves (runs_out [] [] refl (omega arith)))

settle-IsCompleteRun_example : IsCompleteRun 1 last_pool
unfolding settle
settle-IsCompleteRun_example = settle-IsCompleteRun 2 1 [] [] (omega arith) whole_run tt refl refl

pool_moves_example :
    (polling ≡ returned)
    ⊎ ((next : Pool) × (v : Worker) × Move 1 (new_pool 2 1) next
        × (v ≢ polling)
        × (next.workers ≡ v ∷ [])
        × (work 1 next < work 1 (new_pool 2 1)))
pool_moves_example = pool_moves 1 (new_pool 2 1) [] [] polling (done []) refl

moves_bounded_example : moves_of whole_run + work 1 last_pool ≤ 4 * 1 + 2 * min 2 1
moves_bounded_example = moves_bounded 2 1 whole_run

-- A control that was cancelled, and one that failed.
abbrev two_failures : List FuzzOutcome
two_failures = done (process_cancelled ∷ []) ∷ done (failed ∷ []) ∷ []

deterministic_fuzz_failure-IsFirst_example :
    (IsFirst cleanup_failed two_failures (deterministic_fuzz_failure two_failures 0).0
      × ((deterministic_fuzz_failure two_failures 0).1 ≡ true))
    ⊎ ((any cleanup_failed two_failures ≡ false)
        × IsFirst failed_by_itself two_failures (deterministic_fuzz_failure two_failures 0).0
        × ((deterministic_fuzz_failure two_failures 0).1 ≡ true))
    ⊎ ((any cleanup_failed two_failures ≡ false)
        × (any failed_by_itself two_failures ≡ false)
        × IsFirst has_failed two_failures (deterministic_fuzz_failure two_failures 0).0
        × ((deterministic_fuzz_failure two_failures 0).1 ≡ false))
deterministic_fuzz_failure-IsFirst_example = deterministic_fuzz_failure-IsFirst two_failures 0 refl

-- A run that went through.
abbrev passing : Outcome
passing = record {
  started = true;
  kind = outcome_completed;
  exit_code = pos 0;
  stdout = codes "fuzz: elapsed: 3s, execs: 12 (4/sec)\nPASS\nok  \tmodule\t3.0s\n";
  stderr = [];
}

fuzz_outcome-HasPassed_example :
    let o = fuzz_outcome ascii (λ elapsed. some (pos 3)) 10 (passing, []) in
    ((is_nil o.error ≡ false)
      × (length (Outcome.stdout o.result) ≤ 4096)
      × (length (Outcome.stderr o.result) ≤ 4096))
    ⊎ ((o.error ≡ []) × HasPassed (λ elapsed. some (pos 3)) 10 passing [] o)
fuzz_outcome-HasPassed_example =
    fuzz_outcome-HasPassed ascii (λ elapsed. some (pos 3)) 10 passing []

-- The number of executions in its output.
executions : terminal_fuzz_executions (λ elapsed. some (pos 3)) passing.stdout ≡ some 12
unfolding terminal_fuzz_executions has_prefix cut_last trim_return cut_suffix cut_prefix cut
    canonical_decimal unsigned_from
executions = refl
