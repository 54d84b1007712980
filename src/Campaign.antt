-- ===== src/Campaign.antt =====
-- goverify/campaign.go: the workers that run the controls of a campaign, as steps of a state. Any
-- worker may make the next step, so a run is any sequence of steps.
pub mod Failure
pub mod Places
pub mod Workers
pub mod Progress
pub mod Runs
pub mod Settle
pub mod Output
pub mod Control
pub mod Terminal
use verify.Prelude.{
  Bool, List, Option, [], false, if◌then◌else◌, min, none, some, suc, true, zero, ℕ, ◌++◌, ◌+◌, ◌<◌,
  ◌∷◌, ◌≡◌, ◌≤◌,
}
use verify.Errors.{Error, is_nil}
use verify.Execute.{Outcome}

-- `fuzzOutcome`
pub record FuzzOutcome : Type 0 where
  pub result : Outcome
  pub error : Error
  pub executions : ℕ

-- Where a worker is: before its look at the context, before it takes an index, at the run of a control,
-- or returned.
pub data Worker : Type 0 where
  polling : Worker
  taking : Worker
  running : ℕ → Worker
  returned : Worker

-- What the workers share: `next`, the outcomes with their indices, the latest first, the index of the
-- failure that came first, and whether the context is done.
pub record Pool : Type 0 where
  pub next : ℕ
  pub outcomes : List (ℕ × FuzzOutcome)
  pub first_index : Option ℕ
  pub stopped : Bool
  pub workers : List Worker

abbrev pub started : ℕ → List Worker
started zero = []
started (suc jobs) = polling ∷ started jobs

-- `executeFuzzControls` behind the start of its workers.
abbrev pub new_pool : ℕ → ℕ → Pool
new_pool jobs controls = record {
  next = 0;
  outcomes = [];
  first_index = none;
  stopped = false;
  workers = started (min jobs controls);
}

-- `first.Do`
unfoldable pub first_of : Option ℕ → ℕ → Option ℕ
first_of none index = some index
first_of (some first) index = some first

-- The pool with the outcome of a control, where `worker` is what its worker does next.
unfoldable pub finish : Pool → ℕ → FuzzOutcome → List Worker → Pool
unfolding first_of
finish pool index outcome workers =
    if is_nil outcome.error
    then record pool { outcomes = (index, outcome) ∷ pool.outcomes; workers = workers }
    else record pool {
      outcomes = (index, outcome) ∷ pool.outcomes;
      workers = workers;
      first_index = first_of pool.first_index index;
      stopped = true;
    }

-- A step of one worker, over a number of controls.
pub data Move (controls : ℕ) (pool : Pool) : Pool → Type 0 where
  -- `ctx.Err() != nil`
  leaves :
      (before after : List Worker)
      → pool.workers ≡ before ++ polling ∷ after
      → pool.stopped ≡ true
      → Move controls pool (record pool { workers = before ++ returned ∷ after })
  -- `ctx.Err() == nil`
  goes_on :
      (before after : List Worker)
      → pool.workers ≡ before ++ polling ∷ after
      → pool.stopped ≡ false
      → Move controls pool (record pool { workers = before ++ taking ∷ after })
  -- `index >= len(controls)`
  runs_out :
      (before after : List Worker)
      → pool.workers ≡ before ++ taking ∷ after
      → controls ≤ pool.next
      → Move controls pool
          (record pool { next = pool.next + 1; workers = before ++ returned ∷ after })
  -- `index < len(controls)`
  takes :
      (before after : List Worker)
      → pool.workers ≡ before ++ taking ∷ after
      → pool.next < controls
      → Move controls pool
          (record pool { next = pool.next + 1; workers = before ++ running pool.next ∷ after })
  -- `runFuzzControl` returns.
  finishes :
      (before after : List Worker) (index : ℕ) (outcome : FuzzOutcome)
      → pool.workers ≡ before ++ running index ∷ after
      → Move controls pool (finish pool index outcome (before ++ polling ∷ after))

-- A step of one worker, or of the caller's context.
pub data Step (controls : ℕ) (pool : Pool) : Pool → Type 0 where
  -- The caller's context ends.
  ends : Step controls pool (record pool { stopped = true })
  moves : {next : Pool} → Move controls pool next → Step controls pool next

-- Any number of steps.
pub data Steps (controls : ℕ) (start : Pool) : Pool → Type 0 where
  at_start : Steps controls start start
  step :
      {pool next : Pool}
      → Steps controls start pool
      → Step controls pool next
      → Steps controls start next
