-- ===== src/Campaign/Runs.antt =====
-- goverify/campaign.go: what holds of every run of the workers.
use verify.Prelude.{
  All, List, Option, [], ap, arith, false, if_elim, inl, inr, length, min, none, refl, some, suc,
  sym, true, zero, ℕ, ◌++◌, ◌+◌, ◌<◌, ◌∙◌, ◌∷◌, ◌≡◌, ◌≢◌, ◌≤◌,
}
use verify.Errors.{is_nil, is_nil-nil}
use verify.Campaign.{
  FuzzOutcome, Move, Pool, Step, Steps, Worker, at_start, ends, finish, finishes, first_of, goes_on,
  leaves, moves, new_pool, polling, returned, running, runs_out, started, step, takes, taking,
}
use verify.Campaign.Places.{Finished, IsAlone, IsOnce, Returned, Returned-middle, Running}
use verify.Campaign.Workers.{
  IsConsistent, finished-IsConsistent, idle-IsConsistent, moved, takes-IsConsistent,
}

first_of-some : (o : Option ℕ) (i : ℕ) → first_of o i ≢ none
unfolding first_of
first_of-some none i = λ e. absurd (ground arith)
first_of-some (some first) i = λ e. absurd (ground arith)

finishes-IsConsistent :
    (controls : ℕ) (pool : Pool) (before after : List Worker) (index : ℕ) (outcome : FuzzOutcome)
    → IsConsistent controls (record pool { workers = before ++ running index ∷ after })
    → IsConsistent controls (finish pool index outcome (before ++ polling ∷ after))
unfolding finish
finishes-IsConsistent controls pool before after index outcome k =
    if_elim (IsConsistent controls) (is_nil outcome.error)
      (λ nil.
        finished-IsConsistent controls pool before after index outcome pool.first_index pool.stopped
          (λ h. h) (λ e. (e, is_nil-nil outcome.error nil)) k)
      (λ failing.
        finished-IsConsistent controls pool before after index outcome
          (first_of pool.first_index index) true (λ h. refl)
          (λ e. absurd (first_of-some pool.first_index index e)) k)

Move-IsConsistent :
    (controls : ℕ) {pool next : Pool}
    → Move controls pool next
    → IsConsistent controls pool
    → IsConsistent controls next
Move-IsConsistent controls {pool} (leaves before after e stop) k =
    idle-IsConsistent controls pool before after polling returned pool.next pool.stopped (λ i h. h)
      (λ i h. h) (inl refl) (λ r. inl stop) (moved controls pool (before ++ polling ∷ after) e k)
Move-IsConsistent controls {pool} (goes_on before after e going) k =
    let m = moved controls pool (before ++ polling ∷ after) e k in
    idle-IsConsistent controls pool before after polling taking pool.next pool.stopped (λ i h. h)
      (λ i h. h) (inl refl)
      (λ r. m.leaving (Returned-middle before after polling taking r (λ ws h. h))) m
Move-IsConsistent controls {pool} (runs_out before after e out) k =
    idle-IsConsistent controls pool before after taking returned (pool.next + 1) pool.stopped
      (λ i h. h) (λ i h. h) (inr (out, refl)) (λ r. inr (omega arith))
      (moved controls pool (before ++ taking ∷ after) e k)
Move-IsConsistent controls {pool} (takes before after e room) k =
    takes-IsConsistent controls pool before after room
      (moved controls pool (before ++ taking ∷ after) e k)
Move-IsConsistent controls {pool} (finishes before after index outcome e) k =
    finishes-IsConsistent controls pool before after index outcome
      (moved controls pool (before ++ running index ∷ after) e k)

Step-IsConsistent :
    (controls : ℕ) {pool next : Pool}
    → Step controls pool next
    → IsConsistent controls pool
    → IsConsistent controls next
Step-IsConsistent controls {pool} ends k = record {
  covered = k.covered;
  finished_range = k.finished_range;
  running_range = k.running_range;
  once = k.once;
  apart = k.apart;
  alone = k.alone;
  leaving = λ r. inl refl;
  clean = k.clean;
}
Step-IsConsistent controls (moves move) k = Move-IsConsistent controls move k

started-idle : (jobs i : ℕ) → ¬ Running i (started jobs)
started-idle zero i h = h
started-idle (suc jobs) i (inl h) = h
started-idle (suc jobs) i (inr h) = started-idle jobs i h

started-IsAlone : (jobs : ℕ) → IsAlone (started jobs)
started-IsAlone zero = tt
started-IsAlone (suc jobs) = ((λ i h. absurd h), started-IsAlone jobs)

started-there : (jobs : ℕ) → ¬ Returned (started jobs)
started-there zero h = h
started-there (suc jobs) h = started-there jobs h

new_pool-IsConsistent : (jobs controls : ℕ) → IsConsistent controls (new_pool jobs controls)
new_pool-IsConsistent jobs controls = record {
  covered = λ i below range. absurd (omega arith);
  finished_range = λ i f. absurd f;
  running_range = λ i r. absurd (started-idle (min jobs controls) i r);
  once = tt;
  apart = λ i r f. f;
  alone = started-IsAlone (min jobs controls);
  leaving = λ r. absurd (started-there (min jobs controls) r);
  clean = λ e. tt;
}

steps-IsConsistent :
    (jobs controls : ℕ) {pool : Pool}
    → Steps controls (new_pool jobs controls) pool
    → IsConsistent controls pool
steps-IsConsistent jobs controls at_start = new_pool-IsConsistent jobs controls
steps-IsConsistent jobs controls (step run last) =
    Step-IsConsistent controls last (steps-IsConsistent jobs controls run)

length-middle :
    (before after : List Worker) (w v : Worker)
    → length (before ++ w ∷ after) ≡ length (before ++ v ∷ after)
length-middle [] after w v = refl
length-middle (b ∷ before) after w v = ap suc (length-middle before after w v)

pub workers-finish :
    (pool : Pool) (index : ℕ) (outcome : FuzzOutcome) (workers : List Worker)
    → Pool.workers (finish pool index outcome workers) ≡ workers
unfolding finish
workers-finish pool index outcome workers =
    if_elim (λ z. Pool.workers z ≡ workers) (is_nil outcome.error) (λ e. refl) (λ e. refl)

length-Move :
    (controls : ℕ) {pool next : Pool}
    → Move controls pool next
    → length next.workers ≡ length pool.workers
length-Move controls (leaves before after e stop) =
    length-middle before after returned polling ∙ sym (ap length e)
length-Move controls (goes_on before after e going) =
    length-middle before after taking polling ∙ sym (ap length e)
length-Move controls (runs_out before after e out) =
    length-middle before after returned taking ∙ sym (ap length e)
length-Move controls {pool} (takes before after e room) =
    length-middle before after (running pool.next) taking ∙ sym (ap length e)
length-Move controls {pool} (finishes before after index outcome e) =
    ap length (workers-finish pool index outcome (before ++ polling ∷ after))
    ∙ length-middle before after polling (running index)
    ∙ sym (ap length e)

length-Step :
    (controls : ℕ) {pool next : Pool}
    → Step controls pool next
    → length next.workers ≡ length pool.workers
length-Step controls ends = refl
length-Step controls (moves move) = length-Move controls move

length-started : (jobs : ℕ) → length (started jobs) ≡ jobs
length-started zero = refl
length-started (suc jobs) = ap suc (length-started jobs)

length-steps :
    (jobs controls : ℕ) {pool : Pool}
    → Steps controls (new_pool jobs controls) pool
    → length pool.workers ≡ min jobs controls
length-steps jobs controls at_start = length-started (min jobs controls)
length-steps jobs controls (step run last) =
    length-Step controls last ∙ length-steps jobs controls run

-- All workers have returned.
abbrev pub IsOver : List Worker → Type 0
IsOver [] = Unit
IsOver (polling ∷ ws) = ⊥
IsOver (taking ∷ ws) = ⊥
IsOver (running i ∷ ws) = ⊥
IsOver (returned ∷ ws) = IsOver ws

over-Returned : (ws : List Worker) → 1 ≤ length ws → IsOver ws → Returned ws
over-Returned [] h k = absurd (omega arith)
over-Returned (polling ∷ ws) h k = elim k [ ]
over-Returned (taking ∷ ws) h k = elim k [ ]
over-Returned (running i ∷ ws) h k = elim k [ ]
over-Returned (returned ∷ ws) h k = tt

over-idle : (i : ℕ) (ws : List Worker) → IsOver ws → ¬ Running i ws
over-idle i [] k r = r
over-idle i (polling ∷ ws) k r = elim k [ ]
over-idle i (taking ∷ ws) k r = elim k [ ]
over-idle i (running j ∷ ws) k r = elim k [ ]
over-idle i (returned ∷ ws) k (inl h) = h
over-idle i (returned ∷ ws) k (inr r) = over-idle i ws k r

-- A complete run: an outcome for each control, no second one, and no error.
pub record IsCompleteRun (controls : ℕ) (pool : Pool) : Type 0 where
  pub every : (i : ℕ) → i < controls → Finished i pool.outcomes
  pub once_only : IsOnce pool.outcomes
  pub no_error : All (λ o. FuzzOutcome.error o.1 ≡ []) pool.outcomes

-- When all workers have returned, the context is not done and no failure is recorded, then every
-- control has been run exactly once, without an error, in whatever order the workers made their steps.
pub steps-IsCompleteRun :
    (jobs controls : ℕ) {pool : Pool}
    → 1 ≤ jobs
    → Steps controls (new_pool jobs controls) pool
    → IsOver pool.workers
    → pool.stopped ≡ false
    → pool.first_index ≡ none
    → IsCompleteRun controls pool
steps-IsCompleteRun jobs controls {pool} some_job run over going quiet =
    let k = steps-IsConsistent jobs controls run in
    record {
      every = λ i range.
          let there =
            over-Returned pool.workers (omega (arith, length-steps jobs controls run)) over in
          let all_taken : controls ≤ pool.next = elim (k.leaving there) [
            | inl stop ↦ absurd (ground arith)
            | inr h ↦ h
          ] in
          elim (k.covered i (omega arith) range) [
            | inl f ↦ f
            | inr r ↦ absurd (over-idle i pool.workers over r)
          ];
      once_only = k.once;
      no_error = k.clean quiet;
    }
