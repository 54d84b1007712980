-- ===== src/Plan/Whole.antt =====
-- validate.go: `admitProfile`, `admit` and `Validate`. A poll of the caller's context returns
-- its `Err` and passes a state on.
pub mod Refusals
pub mod Admitted
use verify.Prelude.{List, [], false, if◌then◌else◌, length, ltb, not, true, ◌==◌, ◌||◌, ◌∷◌}
use verify.Text.{Bytes, equal}
use verify.Text.Utf8.{Unicode}
use verify.Errors.{Error, Result, ok, err, invalid_plan}
use verify.Plan.{Control, Plan, Profile, max_controls, max_plan_bytes, max_plan_controls}
use verify.Plan.Names.{valid_identifier}
use verify.Plan.Aggregate.{valid_plan_header, valid_plan_aggregate}
use verify.Plan.Admit.{Caches, Platform, admit_control, member}

-- A computation that may poll the context and may fail.
abbrev pub Polled {ℓ κ} : Type ℓ → Type κ → Type (ℓ ⊔ κ)
Polled S A = S → Result A × S

module _ {ℓ} {S : Type ℓ} where
  infixl 5 ◌>>=◌ ◌>>◌
  abbrev pub pure {κ} : {A : Type κ} → A → Polled S A
  pure a s = (ok a, s)

  abbrev pub fail {κ} : {A : Type κ} → Error → Polled S A
  fail e s = (err e, s)

  abbrev pub lift {κ} : {A : Type κ} → Result A → Polled S A
  lift r s = (r, s)

  abbrev pub continue {κ ι} : {A : Type κ} {B : Type ι} → Result A → (A → Polled S B) → Polled S B
  continue (ok a) f s = f a s
  continue (err e) f s = (err e, s)

  abbrev pub ◌>>=◌ {κ ι} : {A : Type κ} {B : Type ι} → Polled S A → (A → Polled S B) → Polled S B
  ◌>>=◌ m f s = let (r, s') = m s in continue r f s'

  abbrev pub ◌>>◌ {κ} : {B : Type κ} → Polled S (Unit {0}) → Polled S B → Polled S B
  m >> k = m >>= λ _. k

  -- What a context's `Err` returned.
  unfoldable pub poll_result : Error × S → Result (Unit {0}) × S
  poll_result ([], s) = (ok tt, s)
  poll_result (c ∷ cs, s) = (err (c ∷ cs), s)

module _ {S : Type 0} (p : Platform) (u : Unicode) (interrupted : S → Error × S) where
  -- `if err := cancelled(); err != nil { return err }`
  unfoldable pub poll : Polled S (Unit {0})
  unfolding poll_result
  poll s = poll_result (interrupted s)

  -- The loop of `admitProfile`.
  unfoldable pub admit_controls :
      Bytes → List Control → List Bytes → Caches → Polled S (List Control × Caches)
  unfolding poll
  admit_controls root [] seen caches = pure ([], caches)
  admit_controls root (control ∷ controls) seen caches = do
    poll
    (admitted, seen', caches') ← lift (admit_control p u root control seen caches)
    (rest, last) ← admit_controls root controls seen' caches'
    pure (admitted ∷ rest, last)

  -- `admitProfile`, with the identifiers that the plan has used.
  unfoldable pub admit_profile :
      Bytes → Profile → List Bytes → Caches → Polled S (Profile × List Bytes × Caches)
  unfolding admit_controls
  admit_profile root profile profiles caches =
      if not (valid_identifier profile.id)
        || member profile.id profiles
        || length profile.controls == 0
        || ltb max_controls (length profile.controls)
      then fail (invalid_plan ∷ [])
      else (do
        (controls, caches') ← admit_controls root profile.controls [] caches
        pure (record { id = profile.id; controls = controls }, profile.id ∷ profiles, caches'))

  -- The loop of `admit`.
  unfoldable pub admit_profiles :
      Bytes → List Profile → List Bytes → Caches → Polled S (List Profile)
  unfolding poll admit_profile
  admit_profiles root [] seen caches = pure []
  admit_profiles root (profile ∷ profiles) seen caches = do
    poll
    (admitted, seen', caches') ← admit_profile root profile seen caches
    rest ← admit_profiles root profiles seen' caches'
    pure (admitted ∷ rest)

  -- `admitWithCancellation`; the admitted plan keeps its identifier.
  unfoldable pub admit : Bytes → Plan → Polled S Plan
  unfolding admit_profiles
  admit root plan =
      if not (valid_plan_header (Platform.is_abs p root) root plan)
      then fail (invalid_plan ∷ [])
      else if not (valid_plan_aggregate plan max_plan_controls max_plan_bytes)
      then fail (invalid_plan ∷ [])
      else elim (Platform.is_directory p (Platform.clean p root)) [
        | err e ↦ fail (invalid_plan ∷ e)
        | ok false ↦ fail (invalid_plan ∷ [])
        | ok true ↦ (do
          profiles ←
              admit_profiles (Platform.clean p root) plan.profiles []
                (record { executables = []; directories = ([], Platform.clean p root) ∷ [] })
          pure (record { id = plan.id; profiles = profiles }))
      ]

-- `selectedProfile`; the error is `ErrInvalidPlan`.
unfoldable pub selected_profile : List Profile → Bytes → Result Profile
selected_profile [] id = err (invalid_plan ∷ [])
selected_profile (profile ∷ profiles) id =
    if equal profile.id id then ok profile else selected_profile profiles id
