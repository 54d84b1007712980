-- ===== src/Campaign/Failure.antt =====
-- goverify/campaign.go: which failure a campaign reports.
use verify.Prelude.{
  Bool, Bool-cases, List, Option, Option-cases, [], any, arith, false, if◌then◌else◌, inl, inr,
  none, not, refl, some, suc, true, zero, ℕ, ◌&&◌, ◌||◌, ◌∷◌, ◌≡◌, ◌⊎◌,
}
use verify.Errors.{cleanup, context_canceled, is, is_nil, process_cancelled}
use verify.Execute.{Outcome, is_cleanup_failure}
use verify.Campaign.{FuzzOutcome}

-- The tests of the three loops of `deterministicFuzzFailure`.
unfoldable pub cleanup_failed : FuzzOutcome → Bool
cleanup_failed o =
    not (is_nil o.error) && (is o.error cleanup || is_cleanup_failure (Outcome.kind o.result))

unfoldable pub failed_by_itself : FuzzOutcome → Bool
failed_by_itself o =
    not (is_nil o.error) && not (is o.error process_cancelled) && not (is o.error context_canceled)

abbrev pub has_failed : FuzzOutcome → Bool
has_failed o = not (is_nil o.error)

abbrev one_more : Option ℕ → Option ℕ
one_more none = none
one_more (some i) = some (suc i)

-- The first index of an outcome that passes the test.
unfoldable pub find_index : (FuzzOutcome → Bool) → List FuzzOutcome → Option ℕ
find_index p [] = none
find_index p (o ∷ outcomes) =
    let rest = one_more (find_index p outcomes) in if p o then some 0 else rest

-- The first of the loops that finds something, and the value in the end.
abbrev pub or_else : Option ℕ → Bool → ℕ × Bool → ℕ × Bool
or_else none genuine rest = rest
or_else (some i) genuine rest = (i, genuine)

-- `deterministicFuzzFailure`
unfoldable pub deterministic_fuzz_failure : List FuzzOutcome → ℕ → ℕ × Bool
unfolding find_index cleanup_failed failed_by_itself
deterministic_fuzz_failure outcomes fallback = or_else (find_index cleanup_failed outcomes) true (
    or_else (find_index failed_by_itself outcomes) true
      (or_else (find_index has_failed outcomes) false (fallback, false)))

-- The first outcome that passes a test stands at an index.
abbrev pub IsFirst : (FuzzOutcome → Bool) → List FuzzOutcome → ℕ → Type 0
IsFirst p [] i = ⊥
IsFirst p (o ∷ outcomes) zero = p o ≡ true
IsFirst p (o ∷ outcomes) (suc i) = (p o ≡ false) × IsFirst p outcomes i

find_index-some :
    (p : FuzzOutcome → Bool) (outcomes : List FuzzOutcome) {i : ℕ}
    → find_index p outcomes ≡ some i
    → IsFirst p outcomes i
unfolding find_index
find_index-some p [] h = absurd (ground arith)
find_index-some p (o ∷ outcomes) {i} h = elim (Bool-cases (p o)) [
  | inl e ↦ let here : i ≡ 0 = ground arith in rw here e
  | inr e ↦ elim (Option-cases (find_index p outcomes)) [
    | inl none_behind ↦ absurd (ground arith)
    | inr (j, found) ↦
        let next : i ≡ suc j = ground arith in rw next (e, find_index-some p outcomes found)
  ]
]

find_index-none :
    (p : FuzzOutcome → Bool) (outcomes : List FuzzOutcome)
    → find_index p outcomes ≡ none
    → any p outcomes ≡ false
unfolding find_index
find_index-none p [] h = refl
find_index-none p (o ∷ outcomes) h = elim (Option-cases (find_index p outcomes)) [
  | inl behind ↦ let rest = find_index-none p outcomes behind in ground arith
  | inr (j, found) ↦ absurd (ground arith)
]

-- `deterministicFuzzFailure`, where something has failed, takes the first failure to clean up, without
-- one the first control that failed by itself, and else the first that was cancelled; so the order in
-- which failures came up plays no part.
pub deterministic_fuzz_failure-IsFirst :
    (outcomes : List FuzzOutcome) (fallback : ℕ)
    → any has_failed outcomes ≡ true
    → (IsFirst cleanup_failed outcomes (deterministic_fuzz_failure outcomes fallback).0
        × ((deterministic_fuzz_failure outcomes fallback).1 ≡ true))
      ⊎ ((any cleanup_failed outcomes ≡ false)
          × IsFirst failed_by_itself outcomes (deterministic_fuzz_failure outcomes fallback).0
          × ((deterministic_fuzz_failure outcomes fallback).1 ≡ true))
      ⊎ ((any cleanup_failed outcomes ≡ false)
          × (any failed_by_itself outcomes ≡ false)
          × IsFirst has_failed outcomes (deterministic_fuzz_failure outcomes fallback).0
          × ((deterministic_fuzz_failure outcomes fallback).1 ≡ false))
unfolding deterministic_fuzz_failure
deterministic_fuzz_failure-IsFirst outcomes fallback h =
    elim (Option-cases (find_index cleanup_failed outcomes)) [
      | inr (i, e) ↦ rw e (inl (find_index-some cleanup_failed outcomes e, refl))
      | inl e ↦
          let no_cleanup = find_index-none cleanup_failed outcomes e in
          elim (Option-cases (find_index failed_by_itself outcomes)) [
            | inr (i, d) ↦
                rw (e, d)
                  (inr (inl (no_cleanup, find_index-some failed_by_itself outcomes d, refl)))
            | inl d ↦
                let no_genuine = find_index-none failed_by_itself outcomes d in
                elim (Option-cases (find_index has_failed outcomes)) [
                  | inr (i, c) ↦
                      rw (e, d, c)
                        (inr (
                          inr
                            (no_cleanup, no_genuine, find_index-some has_failed outcomes c, refl)))
                  | inl c ↦
                      let quiet = find_index-none has_failed outcomes c in absurd (ground arith)
                ]
          ]
    ]
