-- ===== src/Plan/Whole/Refusals.antt =====
-- validate.go: a refused plan has an error that is not nil.
use verify.Errors.{>>=-proper, Error, Result, err, invalid_plan, ok, proper, ◌>>=◌}
use verify.Plan.Whole.{
  admit, admit_controls, admit_profile, admit_profiles, poll, poll_result, continue, Polled, fail,
  pure,
}
use verify.Prelude.{
  Bool, List, [], arith, false, if_elim, length, ltb, none, not, refl, some, true, ℕ, ◌++◌, ◌+◌,
  ◌||◌, ◌∷◌, ◌≡◌, ◌==◌,
}
use verify.Text.{Bytes}
use verify.Text.Utf8.{Unicode}
use verify.Plan.{Command, Control, Plan, Profile, max_controls, max_plan_bytes, max_plan_controls}
use verify.Plan.Names.{display_text, valid_identifier}
use verify.Plan.Strings.{bounded_from, bounded_strings, entry_name, invalid_text}
use verify.Plan.Admit.{
  Cache, Caches, Platform, admit_command, admit_control, admitted_directory_cached,
  executable_cached, member, valid_command_bounds,
}
use verify.Plan.Aggregate.{valid_plan_aggregate, valid_plan_header}

bounded_from-proper :
    (environment : Bool) (maximum total : ℕ) (names values : List Bytes)
    → proper (bounded_from environment maximum total names values) ≡ true
unfolding bounded_from
bounded_from-proper environment maximum total names [] = refl
bounded_from-proper environment maximum total names (v ∷ vs) =
    let P : Result (List Bytes) → Type 0 = λ r. proper r ≡ true in
    if_elim P (invalid_text v) (λ _. refl)
      (λ _.
        if_elim P (ltb maximum (total + length v)) (λ _. refl)
          (λ _.
            if_elim P environment
              (λ _.
                elim (entry_name names v)
                  as (λ o. P (elim o [
                    | none ↦ err (invalid_plan ∷ [])
                    | some name ↦
                        bounded_from environment maximum (total + length v) (names ++ name ∷ []) vs
                        >>= λ rest. ok (v ∷ rest)
                  ])) [
                    | none ↦ refl
                    | some name ↦
                        >>=-proper
                          (bounded_from environment maximum (total + length v) (names ++ name ∷ [])
                            vs)
                          _
                          (bounded_from-proper environment maximum (total + length v)
                            (names ++ name ∷ []) vs)
                          (λ rest. refl)
                  ])
              (λ _.
                >>=-proper (bounded_from environment maximum (total + length v) names vs) _
                  (bounded_from-proper environment maximum (total + length v) names vs)
                  (λ rest. refl))))

bounded_strings-proper :
    (values : List Bytes) (environment : Bool) → proper (bounded_strings values environment) ≡ true
unfolding bounded_strings
bounded_strings-proper values environment = bounded_from-proper environment _ 0 [] values

module _ (p : Platform) (u : Unicode) where
  executable_cached-proper :
      (path : Bytes) (executables : Cache) → proper (executable_cached p u path executables) ≡ true
  unfolding executable_cached
  executable_cached-proper path executables = ground arith

  admitted_directory_cached-proper :
      (root directory : Bytes) (admitted : Cache)
      → proper (admitted_directory_cached p u root directory admitted) ≡ true
  unfolding admitted_directory_cached
  admitted_directory_cached-proper root directory admitted = ground arith

  admit_command-proper :
      (root : Bytes) (c : Command) (caches : Caches)
      → proper (admit_command p u root c caches) ≡ true
  unfolding admit_command
  admit_command-proper root c caches =
      if_elim (λ (r : Result (Command × Caches)). proper r ≡ true)
        (not (valid_command_bounds p u c)) (λ _. refl)
        (λ _.
          >>=-proper (executable_cached p u c.executable caches.executables) _
            (executable_cached-proper c.executable caches.executables)
            (λ x.
              >>=-proper (admitted_directory_cached p u root c.directory caches.directories) _
                (admitted_directory_cached-proper root c.directory caches.directories)
                (λ y.
                  >>=-proper (bounded_strings c.arguments false) _
                    (bounded_strings-proper c.arguments false)
                    (λ a.
                      >>=-proper (bounded_strings c.environment true) _
                        (bounded_strings-proper c.environment true) (λ e. refl)))))

  admit_control-proper :
      (root : Bytes) (control : Control) (seen : List Bytes) (caches : Caches)
      → proper (admit_control p u root control seen caches) ≡ true
  unfolding admit_control
  admit_control-proper root control seen caches =
      if_elim (λ (r : Result (Control × List Bytes × Caches)). proper r ≡ true)
        (not (valid_identifier control.id)
          || member control.id seen
          || not (display_text u control.name))
        (λ _. refl)
        (λ _.
          >>=-proper (admit_command p u root control.command caches) _
            (admit_command-proper root control.command caches) (λ x. refl))

module _ {ℓ κ ι} {S : Type ℓ} {A : Type κ} {B : Type ι} where
  continue-proper :
      (r : Result A) (f : A → Polled S B) (s : S)
      → proper r ≡ true
      → ((a : A) (s' : S) → proper (f a s').0 ≡ true)
      → proper (continue r f s).0 ≡ true
  continue-proper (err causes) f s h k = h
  continue-proper (ok a) f s h k = k a s

module _ {S : Type 0} (p : Platform) (u : Unicode) (interrupted : S → Error × S) where
  poll_result-proper : (x : Error × S) → proper (poll_result x).0 ≡ true
  unfolding poll_result
  poll_result-proper ([], s) = refl
  poll_result-proper (c ∷ cs, s) = refl

  poll-proper : (s : S) → proper (poll p u interrupted s).0 ≡ true
  unfolding poll
  poll-proper s = poll_result-proper (interrupted s)

  admit_controls-proper :
      (root : Bytes) (controls : List Control) (seen : List Bytes) (caches : Caches) (s : S)
      → proper (admit_controls p u interrupted root controls seen caches s).0 ≡ true
  unfolding admit_controls
  admit_controls-proper root [] seen caches s = refl
  admit_controls-proper root (control ∷ controls) seen caches s =
      continue-proper _ _ _ (poll-proper s) (λ t s1.
        continue-proper (admit_control p u root control seen caches) _ s1
          (admit_control-proper p u root control seen caches)
          (λ x s2.
            continue-proper _ _ _ (admit_controls-proper root controls x.1 x.2 s2) (λ y s3. refl)))

  admit_profile-proper :
      (root : Bytes) (profile : Profile) (seen : List Bytes) (caches : Caches) (s : S)
      → proper (admit_profile p u interrupted root profile seen caches s).0 ≡ true
  unfolding admit_profile
  admit_profile-proper root profile seen caches s =
      if_elim (λ (f : Polled S (Profile × List Bytes × Caches)). proper (f s).0 ≡ true)
        (not (valid_identifier profile.id)
          || member profile.id seen
          || length profile.controls == 0
          || ltb max_controls (length profile.controls))
        (λ _. refl)
        (λ _.
          continue-proper _ _ _ (admit_controls-proper root profile.controls [] caches s)
            (λ x s1. refl))

  admit_profiles-proper :
      (root : Bytes) (profiles : List Profile) (seen : List Bytes) (caches : Caches) (s : S)
      → proper (admit_profiles p u interrupted root profiles seen caches s).0 ≡ true
  unfolding admit_profiles
  admit_profiles-proper root [] seen caches s = refl
  admit_profiles-proper root (profile ∷ profiles) seen caches s =
      continue-proper _ _ _ (poll-proper s) (λ t s1.
        continue-proper _ _ _ (admit_profile-proper root profile seen caches s1) (λ x s2.
          continue-proper _ _ _ (admit_profiles-proper root profiles x.1 x.2 s2) (λ y s3. refl)))

  -- A plan that `admit` refuses has an error that is not nil.
  pub admit-proper :
      (root : Bytes) (plan : Plan) (s : S) → proper (admit p u interrupted root plan s).0 ≡ true
  unfolding admit
  admit-proper root plan s =
      let clean = Platform.clean p root in
      let P : Polled S Plan → Type 0 = λ f. proper (f s).0 ≡ true in
      let start : Caches = record { executables = []; directories = ([], clean) ∷ [] } in
      if_elim P (not (valid_plan_header (Platform.is_abs p root) root plan)) (λ _. refl)
        (λ _.
          if_elim P (not (valid_plan_aggregate plan max_plan_controls max_plan_bytes)) (λ _. refl)
            (λ _.
              elim (Platform.is_directory p clean)
                as (λ r. P (elim r [
                  | err e ↦ fail (invalid_plan ∷ e)
                  | ok false ↦ fail (invalid_plan ∷ [])
                  | ok true ↦ λ s1.
                      let (profiles, s2) =
                        admit_profiles p u interrupted clean plan.profiles [] start s1 in
                      continue profiles (λ ps. pure (record { id = plan.id; profiles = ps })) s2
                ])) [
                  | err e ↦ refl
                  | ok false ↦ refl
                  | ok true ↦
                      continue-proper _ _ _ (admit_profiles-proper clean plan.profiles [] start s)
                        (λ ps s1. refl)
                ]))
