-- ===== src/Campaign/Workers.antt =====
-- goverify/campaign.go: whatever the workers do, each control is run at most once, and all are run
-- without an error unless the campaign fails.
use verify.Prelude.{
  All, Bool, Bool-cases, List, Option, [], arith, inl, inr, ltb, none, refl, subst, sym, true, ℕ,
  ◌++◌, ◌+◌, ◌<◌, ◌∷◌, ◌≡◌, ◌≤◌, ◌⊎◌,
}
use verify.Campaign.{FuzzOutcome, Pool, Worker, polling, running, taking}
use verify.Campaign.Places.{
  At, Finished, IsAlone, IsOnce, Returned, Returned-middle, Running, Running-At, Running-middle,
  alone-middle, replaced-IsAlone,
}

-- Every index that was taken is at one worker or has one outcome; a worker returns only when the
-- context is done or no control is left; and without a failure every outcome has a nil error.
pub record IsConsistent (controls : ℕ) (pool : Pool) : Type 0 where
  pub covered :
      (i : ℕ) → i < pool.next → i < controls → Finished i pool.outcomes ⊎ Running i pool.workers
  pub finished_range : (i : ℕ) → Finished i pool.outcomes → (i < pool.next) × (i < controls)
  pub running_range : (i : ℕ) → Running i pool.workers → (i < pool.next) × (i < controls)
  pub once : IsOnce pool.outcomes
  pub apart : (i : ℕ) → Running i pool.workers → ¬ Finished i pool.outcomes
  pub alone : IsAlone pool.workers
  pub leaving : Returned pool.workers → (pool.stopped ≡ true) ⊎ (controls ≤ pool.next)
  pub clean : pool.first_index ≡ none → All (λ o. FuzzOutcome.error o.1 ≡ []) pool.outcomes

pub moved :
    (controls : ℕ) (pool : Pool) (ws : List Worker)
    → pool.workers ≡ ws
    → IsConsistent controls pool
    → IsConsistent controls (record pool { workers = ws })
moved controls pool ws e k = subst (λ z. IsConsistent controls (record pool { workers = z })) e k

module _ (controls : ℕ) (pool : Pool) (before after : List Worker) where
  -- A worker that runs nothing goes on to something else than a control.
  pub idle-IsConsistent :
      (w v : Worker) (next : ℕ) (stopped : Bool)
      → ((i : ℕ) → ¬ At i w)
      → ((i : ℕ) → ¬ At i v)
      → ((next ≡ pool.next) ⊎ ((controls ≤ pool.next) × (next ≡ pool.next + 1)))
      → (Returned (before ++ v ∷ after) → (stopped ≡ true) ⊎ (controls ≤ next))
      → IsConsistent controls (record pool { workers = before ++ w ∷ after })
      → IsConsistent controls
          (record pool { next = next; stopped = stopped; workers = before ++ v ∷ after })
  idle-IsConsistent w v next stopped iw iv n l k =
      let still : (i : ℕ) → Running i (before ++ v ∷ after) → Running i (before ++ w ∷ after) =
        λ i r. elim (Running-middle i before after v r) [ inl e ↦ absurd (iv i e) | inr m ↦ m w ] in
      record {
        covered = λ i below range.
            elim (k.covered i (elim n [ inl e ↦ omega arith | inr e ↦ omega arith ]) range) [
              | inl f ↦ inl f
              | inr r ↦ inr (elim (Running-middle i before after w r) [
                | inl e ↦ absurd (iw i e)
                | inr m ↦ m v
              ])
            ];
        finished_range = λ i f.
            let b = k.finished_range i f in
            (elim n [ inl e ↦ omega arith | inr e ↦ omega arith ], b.1);
        running_range = λ i r.
            let b = k.running_range i (still i r) in
            (elim n [ inl e ↦ omega arith | inr e ↦ omega arith ], b.1);
        once = k.once;
        apart = λ i r. k.apart i (still i r);
        alone = replaced-IsAlone before after w v k.alone (λ i e r. iv i e);
        leaving = l;
        clean = k.clean;
      }

  pub takes-IsConsistent :
      pool.next < controls
      → IsConsistent controls (record pool { workers = before ++ taking ∷ after })
      → IsConsistent controls
          (record pool { next = pool.next + 1; workers = before ++ running pool.next ∷ after })
  takes-IsConsistent room k =
      let at = Running-At pool.next before after (running pool.next) refl in
      record {
        covered = λ i below range. elim (Bool-cases (ltb i pool.next)) [
          | inl earlier ↦ elim (k.covered i (ground arith) range) [
            | inl f ↦ inl f
            | inr r ↦ inr (elim (Running-middle i before after taking r) [
              | inl e ↦ absurd e
              | inr m ↦ m (running pool.next)
            ])
          ]
          | inr latest ↦
              let e : pool.next ≡ i = ground arith in
              inr (subst (λ z. Running z (before ++ running pool.next ∷ after)) e at)
        ];
        finished_range = λ i f. let b = k.finished_range i f in (omega arith, b.1);
        running_range = λ i r. elim (Running-middle i before after (running pool.next) r) [
          | inl e ↦ (omega arith, omega arith)
          | inr m ↦ let b = k.running_range i (m taking) in (omega arith, b.1)
        ];
        once = k.once;
        apart = λ i r f. elim (Running-middle i before after (running pool.next) r) [
          | inl e ↦ absurd (let b = k.finished_range i f in omega (arith, b.0))
          | inr m ↦ k.apart i (m taking) f
        ];
        alone =
            replaced-IsAlone before after taking (running pool.next) k.alone
              (λ i e r. absurd (let b = k.running_range i r in omega arith));
        leaving = λ r.
            elim (k.leaving
              (Returned-middle before after taking (running pool.next) r (λ ws h. h))) [
                | inl h ↦ inl h
                | inr h ↦ inr (omega arith)
              ];
        clean = k.clean;
      }

  pub finished-IsConsistent :
      (index : ℕ) (outcome : FuzzOutcome) (first : Option ℕ) (stopped : Bool)
      → (pool.stopped ≡ true → stopped ≡ true)
      → (first ≡ none → (pool.first_index ≡ none) × (outcome.error ≡ []))
      → IsConsistent controls (record pool { workers = before ++ running index ∷ after })
      → IsConsistent controls (record pool {
        outcomes = (index, outcome) ∷ pool.outcomes;
        first_index = first;
        stopped = stopped;
        workers = before ++ polling ∷ after;
      })
  finished-IsConsistent index outcome first stopped stays quiet k =
      let here = Running-At index before after (running index) refl in
      let gone =
        alone-middle index before after (running index) polling k.alone refl (λ (e : ⊥). e) in
      let still : (i : ℕ)
          → Running i (before ++ polling ∷ after)
          → Running i (before ++ running index ∷ after) =
        λ i r. elim (Running-middle i before after polling r) [
          | inl e ↦ absurd e
          | inr m ↦ m (running index)
        ] in
      record {
        covered = λ i below range. elim (k.covered i below range) [
          | inl f ↦ inl (inr f)
          | inr r ↦ elim (Running-middle i before after (running index) r) [
            | inl e ↦ inl (inl e)
            | inr m ↦ inr (m polling)
          ]
        ];
        finished_range = λ i f. elim f [
          | inl e ↦
              subst (λ z. (z < pool.next) × (z < controls)) (sym e) (k.running_range index here)
          | inr g ↦ k.finished_range i g
        ];
        running_range = λ i r. k.running_range i (still i r);
        once = (k.apart index here, k.once);
        apart = λ i r f. elim f [
          | inl e ↦ gone (subst (λ z. Running z (before ++ polling ∷ after)) e r)
          | inr g ↦ k.apart i (still i r) g
        ];
        alone = replaced-IsAlone before after (running index) polling k.alone (λ i e r. absurd e);
        leaving = λ r.
            elim (k.leaving (Returned-middle before after (running index) polling r (λ ws h. h))) [
              | inl h ↦ inl (stays h)
              | inr h ↦ inr h
            ];
        clean = λ e. let q = quiet e in (q.1, k.clean q.0);
      }
