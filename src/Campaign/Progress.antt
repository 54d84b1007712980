-- ===== src/Campaign/Progress.antt =====
-- goverify/campaign.go: the workers go on until all of them have returned.
use verify.Prelude.{
  Bool-cases, List, [], ap, arith, if_elim, inl, inr, leb, min, refl, suc, zero, ℕ, ◌*◌, ◌++◌, ◌+◌,
  ◌-◌, ◌<◌, ◌∷◌, ◌≡◌, ◌≢◌, ◌≤◌, ◌⊎◌,
}
use verify.Errors.{is_nil}
use verify.Campaign.{
  FuzzOutcome, Move, Pool, Steps, Worker, at_start, ends, finish, finishes, goes_on, leaves, moves,
  new_pool, polling, returned, running, runs_out, started, step, takes, taking,
}
use verify.Campaign.Runs.{workers-finish}

-- The steps that a worker makes until it polls again and finds no control left.
abbrev pub steps_left : Worker → ℕ
steps_left returned = 0
steps_left taking = 1
steps_left polling = 2
steps_left (running index) = 3

abbrev pub all_left : List Worker → ℕ
all_left [] = 0
all_left (w ∷ ws) = steps_left w + all_left ws

-- What is left to do: four for each control that is not taken, and the steps that the workers have left.
abbrev pub work : ℕ → Pool → ℕ
work controls pool = 4 * (controls - pool.next) + all_left pool.workers

all_left-append :
    (before after : List Worker) → all_left (before ++ after) ≡ all_left before + all_left after
all_left-append [] after = omega arith
all_left-append (w ∷ before) after = omega (arith, all_left-append before after)

-- A worker moves on, with the index of the next control.
work-middle :
    (controls next next' : ℕ) (before after : List Worker) (w v : Worker)
    → 4 * (controls - next') + steps_left v < 4 * (controls - next) + steps_left w
    → 4 * (controls - next') + all_left (before ++ v ∷ after)
      < 4 * (controls - next) + all_left (before ++ w ∷ after)
work-middle controls next next' before after w v h =
    omega (arith, all_left-append before (v ∷ after), all_left-append before (w ∷ after))

next-finish :
    (pool : Pool) (index : ℕ) (outcome : FuzzOutcome) (workers : List Worker)
    → Pool.next (finish pool index outcome workers) ≡ pool.next
unfolding finish
next-finish pool index outcome workers =
    if_elim (λ z. Pool.next z ≡ pool.next) (is_nil outcome.error) (λ e. refl) (λ e. refl)

work-finish :
    (controls : ℕ) (pool : Pool) (before after : List Worker) (index : ℕ) (outcome : FuzzOutcome)
    → pool.workers ≡ before ++ running index ∷ after
    → work controls (finish pool index outcome (before ++ polling ∷ after)) < work controls pool
work-finish controls pool before after index outcome e =
    let h =
      work-middle controls pool.next pool.next before after (running index) polling (omega arith) in
    omega (
      arith,
      h,
      ap all_left e,
      ap (λ n. 4 * (controls - n)) (next-finish pool index outcome (before ++ polling ∷ after)),
      ap all_left (workers-finish pool index outcome (before ++ polling ∷ after)),
    )

work-Move :
    (controls : ℕ) {pool next : Pool}
    → Move controls pool next
    → work controls next < work controls pool
work-Move controls {pool} (leaves before after e stop) =
    rw e (work-middle controls pool.next pool.next before after polling returned (omega arith))
work-Move controls {pool} (goes_on before after e going) =
    rw e (work-middle controls pool.next pool.next before after polling taking (omega arith))
work-Move controls {pool} (runs_out before after e out) =
    rw e (work-middle controls pool.next (pool.next + 1) before after taking returned (omega arith))
work-Move controls {pool} (takes before after e room) = rw e (
    work-middle controls pool.next (pool.next + 1) before after taking (running pool.next)
      (omega arith))
work-Move controls {pool} (finishes before after index outcome e) =
    work-finish controls pool before after index outcome e

-- A worker that has not returned can make a step of its own, whatever the other workers do, where the
-- process that it runs has an outcome; the step changes this worker alone and leaves less to do.
pub pool_moves :
    (controls : ℕ) (pool : Pool) (before after : List Worker) (w : Worker) (outcome : FuzzOutcome)
    → pool.workers ≡ before ++ w ∷ after
    → (w ≡ returned)
      ⊎ ((next : Pool) × (v : Worker) × Move controls pool next
          × (v ≢ w)
          × (next.workers ≡ before ++ v ∷ after)
          × (work controls next < work controls pool))
pool_moves controls pool before after polling outcome e = elim (Bool-cases pool.stopped) [
  | inl stop ↦
      let move : Move controls pool _ = leaves before after e stop in
      inr (_, returned, move, (λ (h : _ ≡ _). absurd (ground arith)), refl, work-Move controls move)
  | inr going ↦
      let move : Move controls pool _ = goes_on before after e going in
      inr (_, taking, move, (λ (h : _ ≡ _). absurd (ground arith)), refl, work-Move controls move)
]
pool_moves controls pool before after taking outcome e =
    elim (Bool-cases (leb controls pool.next)) [
      | inl out ↦
          let move : Move controls pool _ = runs_out before after e (ground arith) in
          inr (
            _,
            returned,
            move,
            (λ (h : _ ≡ _). absurd (ground arith)),
            refl,
            work-Move controls move,
          )
      | inr room ↦
          let move : Move controls pool _ = takes before after e (ground arith) in
          inr (
            _,
            running pool.next,
            move,
            (λ (h : _ ≡ _). absurd (ground arith)),
            refl,
            work-Move controls move,
          )
    ]
pool_moves controls pool before after (running index) outcome e =
    let move = finishes before after index outcome e in
    inr (
      _,
      polling,
      move,
      (λ (h : _ ≡ _). absurd (ground arith)),
      workers-finish pool index outcome (before ++ polling ∷ after),
      work-Move controls move,
    )
pool_moves controls pool before after returned outcome e = inl refl

-- The steps of workers in a run.
abbrev pub moves_of : {controls : ℕ} {start pool : Pool} → Steps controls start pool → ℕ
moves_of at_start = 0
moves_of (step run ends) = moves_of run
moves_of (step run (moves move)) = moves_of run + 1

all_left-started : (jobs : ℕ) → all_left (started jobs) ≡ 2 * jobs
all_left-started zero = omega arith
all_left-started (suc jobs) = omega (arith, all_left-started jobs)

-- In every run the workers make at most four steps for each control and two for each worker, in whatever
-- order they make them and whenever the caller's context ends.
pub moves_bounded :
    (jobs controls : ℕ) {pool : Pool} (run : Steps controls (new_pool jobs controls) pool)
    → moves_of run + work controls pool ≤ 4 * controls + 2 * min jobs controls
moves_bounded jobs controls at_start = omega (arith, all_left-started (min jobs controls))
moves_bounded jobs controls (step run ends) = moves_bounded jobs controls run
moves_bounded jobs controls (step run (moves move)) =
    omega (arith, moves_bounded jobs controls run, work-Move controls move)
