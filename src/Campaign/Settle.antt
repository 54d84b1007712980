-- ===== src/Campaign/Settle.antt =====
-- goverify/campaign.go: what a campaign returns when its workers have returned.
use verify.Prelude.{
  Bool, List, Option-cases, [], arith, false, if◌then◌else◌, inl, inr, none, not, pos, some, suc,
  zero, ℕ, ◌&&◌, ◌+◌, ◌==◌, ◌∷◌, ◌≡◌, ◌≤◌,
}
use verify.Errors.{Error, Result, err, fuzz_campaign, is_nil, ok}
use verify.Execute.{outcome_other}
use verify.Campaign.{FuzzOutcome, Pool, Steps, new_pool}
use verify.Campaign.Runs.{IsCompleteRun, IsOver, steps-IsCompleteRun}
use verify.Campaign.Failure.{deterministic_fuzz_failure}

-- The zero value of a `fuzzOutcome`; its kind plays no part, as its error is nil.
abbrev pub no_outcome : FuzzOutcome
no_outcome = record {
  result = record {
    started = false;
    kind = outcome_other 0;
    exit_code = pos 0;
    stdout = [];
    stderr = [];
  };
  error = [];
  executions = 0;
}

unfoldable pub outcome_at : ℕ → List (ℕ × FuzzOutcome) → FuzzOutcome
outcome_at index [] = no_outcome
outcome_at index ((i, outcome) ∷ outcomes) =
    let rest = outcome_at index outcomes in if i == index then outcome else rest

-- The slice of outcomes, from an index on.
unfoldable pub outcomes_from : ℕ → ℕ → List (ℕ × FuzzOutcome) → List FuzzOutcome
unfolding outcome_at
outcomes_from zero index outcomes = []
outcomes_from (suc count) index outcomes =
    outcome_at index outcomes ∷ outcomes_from count (index + 1) outcomes

-- The failure that is returned, by the error of the caller's context.
unfoldable pub failure_of : Pool → Error → ℕ × Bool → Error
unfolding outcome_at
failure_of pool parent_error (index, genuine) =
    if not genuine && not (is_nil parent_error)
    then fuzz_campaign ∷ parent_error
    else fuzz_campaign ∷ FuzzOutcome.error (outcome_at index pool.outcomes)

-- `executeFuzzControls` behind `workers.Wait`, with the outcomes that it goes on to write.
unfoldable pub settle : Pool → ℕ → Error → Error → Result (List FuzzOutcome)
unfolding outcomes_from failure_of
settle pool controls parent_error context_error = elim (Pool.first_index pool) [
  | some first ↦ err (
      failure_of pool parent_error
        (deterministic_fuzz_failure (outcomes_from controls 0 pool.outcomes) first))
  | none ↦
      if not (is_nil context_error)
      then err (fuzz_campaign ∷ context_error)
      else ok (outcomes_from controls 0 pool.outcomes)
]

-- When `executeFuzzControls` goes on to write outcomes, every control has been run exactly once, and
-- without an error, in whatever order the workers made their steps. The context has a nil error as
-- long as it is not done.
pub settle-IsCompleteRun :
    (jobs controls : ℕ) (parent_error context_error : Error) {pool : Pool}
    {outcomes : List FuzzOutcome}
    → 1 ≤ jobs
    → Steps controls (new_pool jobs controls) pool
    → IsOver pool.workers
    → is_nil context_error ≡ not pool.stopped
    → settle pool controls parent_error context_error ≡ ok outcomes
    → IsCompleteRun controls pool
unfolding settle
settle-IsCompleteRun jobs controls parent_error context_error {pool} some_job run over agrees e =
    elim (Option-cases pool.first_index) [
      | inr (first, failing) ↦ absurd (ground arith)
      | inl quiet ↦ steps-IsCompleteRun jobs controls some_job run over (ground arith) quiet
    ]
