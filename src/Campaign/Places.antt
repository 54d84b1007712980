-- ===== src/Campaign/Places.antt =====
-- goverify/campaign.go: where the workers are, as a list: which controls they run, and who has returned.
use verify.Prelude.{List, [], inl, inr, ℕ, ◌++◌, ◌∷◌, ◌≡◌, ◌⊎◌}
use verify.Campaign.{FuzzOutcome, Worker, polling, returned, running, taking}

-- A worker runs the control at an index.
abbrev pub At : ℕ → Worker → Type 0
At i polling = ⊥
At i taking = ⊥
At i (running j) = i ≡ j
At i returned = ⊥

abbrev pub Running : ℕ → List Worker → Type 0
Running i [] = ⊥
Running i (w ∷ ws) = At i w ⊎ Running i ws

-- There is an outcome for an index.
abbrev pub Finished : ℕ → List (ℕ × FuzzOutcome) → Type 0
Finished i [] = ⊥
Finished i ((j, o) ∷ outcomes) = (i ≡ j) ⊎ Finished i outcomes

abbrev pub Returned : List Worker → Type 0
Returned [] = ⊥
Returned (returned ∷ ws) = Unit
Returned (w ∷ ws) = Returned ws

-- No index twice among the outcomes.
abbrev pub IsOnce : List (ℕ × FuzzOutcome) → Type 0
IsOnce [] = Unit
IsOnce ((j, o) ∷ outcomes) = ¬ Finished j outcomes × IsOnce outcomes

pub Running-middle :
    (i : ℕ) (before after : List Worker) (w : Worker)
    → Running i (before ++ w ∷ after)
    → At i w ⊎ ((v : Worker) → Running i (before ++ v ∷ after))
Running-middle i [] after w (inl h) = inl h
Running-middle i [] after w (inr h) = inr (λ v. inr h)
Running-middle i (b ∷ before) after w (inl h) = inr (λ v. inl h)
Running-middle i (b ∷ before) after w (inr h) = elim (Running-middle i before after w h) [
  | inl k ↦ inl k
  | inr k ↦ inr (λ v. inr (k v))
]

pub Running-At :
    (i : ℕ) (before after : List Worker) (w : Worker) → At i w → Running i (before ++ w ∷ after)
Running-At i [] after w h = inl h
Running-At i (b ∷ before) after w h = inr (Running-At i before after w h)

-- No two workers run the same control.
abbrev pub IsAlone : List Worker → Type 0
IsAlone [] = Unit
IsAlone (w ∷ ws) = ((i : ℕ) → At i w → ¬ Running i ws) × IsAlone ws

pub alone-middle :
    (i : ℕ) (before after : List Worker) (w v : Worker)
    → IsAlone (before ++ w ∷ after)
    → At i w
    → ¬ At i v
    → ¬ Running i (before ++ v ∷ after)
alone-middle i [] after w v k h idle (inl e) = idle e
alone-middle i [] after w v k h idle (inr r) = k.0 i h r
alone-middle i (b ∷ before) after w v k h idle (inl e) = k.0 i e (Running-At i before after w h)
alone-middle i (b ∷ before) after w v k h idle (inr r) =
    alone-middle i before after w v k.1 h idle r

pub replaced-IsAlone :
    (before after : List Worker) (w v : Worker)
    → IsAlone (before ++ w ∷ after)
    → ((i : ℕ) → At i v → ¬ Running i (before ++ w ∷ after))
    → IsAlone (before ++ v ∷ after)
replaced-IsAlone [] after w v k fresh = ((λ i h r. fresh i h (inr r)), k.1)
replaced-IsAlone (b ∷ before) after w v k fresh = (
  (λ i h r. elim (Running-middle i before after v r) [
    | inl e ↦ fresh i e (inl h)
    | inr m ↦ k.0 i h (m w)
  ]),
  replaced-IsAlone before after w v k.1 (λ i h r. fresh i h (inr r)),
)

pub Returned-middle :
    (before after : List Worker) (w v : Worker)
    → Returned (before ++ v ∷ after)
    → ((ws : List Worker) → Returned (v ∷ ws) → Returned ws)
    → Returned (before ++ w ∷ after)
Returned-middle [] after polling v h k = k after h
Returned-middle [] after taking v h k = k after h
Returned-middle [] after (running i) v h k = k after h
Returned-middle [] after returned v h k = tt
Returned-middle (polling ∷ before) after w v h k = Returned-middle before after w v h k
Returned-middle (taking ∷ before) after w v h k = Returned-middle before after w v h k
Returned-middle (running i ∷ before) after w v h k = Returned-middle before after w v h k
Returned-middle (returned ∷ before) after w v h k = tt
