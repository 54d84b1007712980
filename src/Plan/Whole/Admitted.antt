-- ===== src/Plan/Whole/Admitted.antt =====
-- validate.go: what an admitted plan has to do with the plan that was given.
use verify.Plan.Whole.{poll, Polled, admit_controls, admit_profile, admit_profiles, continue, admit}
use verify.Errors.{>>=-eq-ok, Error, Result, err, is, ok, ok-injective, invalid_plan, Result-cases}
use verify.Prelude.{
  Bool-cases, List, [], arith, false, inl, inr, not, refl, subst, true, ◌||◌, ◌∷◌, ◌≡◌, length, ltb,
  ◌<◌, ◌==◌, ◌≤◌, sym,
}
use verify.Text.{Bytes}
use verify.Text.Utf8.{Unicode}
use verify.Plan.{Control, Profile, max_controls, Plan, max_plan_bytes, max_plan_controls}
use verify.Plan.Names.{display_text, valid_identifier}
use verify.Plan.Admit.{Caches, Platform, admit_command, admit_control, member, lookup}
use verify.Plan.Admit.Limits.{IsAdmittedCommand, IsCache, admit_command-ok, lookup-new}
use verify.Plan.Aggregate.{valid_plan_aggregate, valid_plan_header}

module _ (p : Platform) (u : Unicode) (root : Bytes) where
  -- An admitted control.
  pub record IsAdmittedControl (c c' : Control) : Type 0 where
    pub identified : valid_identifier c.id ≡ true
    pub named : display_text u c.name ≡ true
    pub command : IsAdmittedCommand p u root c.command c'.command
    pub copy : c' ≡ record c { command = c'.command }

  -- Controls that are admitted behind those with the identifiers `seen`.
  abbrev pub AdmittedControls : List Bytes → List Control → List Control → Type 0
  AdmittedControls seen [] [] = Unit
  AdmittedControls seen [] (c' ∷ cs') = ⊥
  AdmittedControls seen (c ∷ cs) [] = ⊥
  AdmittedControls seen (c ∷ cs) (c' ∷ cs') =
      (member c.id seen ≡ false) × IsAdmittedControl c c' × AdmittedControls (c.id ∷ seen) cs cs'

  admit_control-ok :
      (c : Control) (seen : List Bytes) (caches : Caches) {c' : Control} {seen' : List Bytes}
      {caches' : Caches}
      → IsCache p u root caches
      → admit_control p u root c seen caches ≡ ok (c', seen', caches')
      → (member c.id seen ≡ false)
        × IsAdmittedControl c c'
        × (seen' ≡ c.id ∷ seen)
        × IsCache p u root caches'
  unfolding admit_control
  admit_control-ok c seen caches {c'} {seen'} {caches'} inv h =
      elim (Bool-cases
        (not (valid_identifier c.id) || member c.id seen || not (display_text u c.name))) [
          | inl bad ↦ absurd (ground arith)
          | inr good ↦
              let ((command, k), h1, k1) =
                >>=-eq-ok (admit_command p u root c.command caches) _ (rw good at h) in
              let (is, sound) =
                admit_command-ok p u root c.command caches {c' = command} {caches' = k} inv h1 in
              subst
                (λ (z : Control × List Bytes × Caches).
                  (member c.id seen ≡ false)
                  × IsAdmittedControl c z.0
                  × (z.1 ≡ c.id ∷ seen)
                  × IsCache p u root z.2)
                (ok-injective k1)
                (
                  ground arith,
                  record {
                    identified = ground arith;
                    named = ground arith;
                    command = is;
                    copy = refl;
                  },
                  refl,
                  sound,
                )
        ]

  -- A profile that is admitted behind those with the identifiers `seen`.
  pub record IsAdmittedProfile (seen : List Bytes) (f f' : Profile) : Type 0 where
    pub identified : valid_identifier f.id ≡ true
    pub new : member f.id seen ≡ false
    pub some_controls : 0 < length f.controls
    pub few_controls : length f.controls ≤ max_controls
    pub same : f'.id ≡ f.id
    pub controls : AdmittedControls [] f.controls f'.controls

  abbrev pub AdmittedProfiles : List Bytes → List Profile → List Profile → Type 0
  AdmittedProfiles seen [] [] = Unit
  AdmittedProfiles seen [] (f' ∷ fs') = ⊥
  AdmittedProfiles seen (f ∷ fs) [] = ⊥
  AdmittedProfiles seen (f ∷ fs) (f' ∷ fs') =
      IsAdmittedProfile seen f f' × AdmittedProfiles (f.id ∷ seen) fs fs'

refusal-ok : {A : Type 0} (e : Error) {a : A} → err e ≡ ok a → ⊥
refusal-ok e h = cc

module _ {ℓ κ ι} {S : Type ℓ} {A : Type κ} {B : Type ι} where
  continue-ok :
      (r : Result A) (f : A → Polled S B) (s : S) {b : B}
      → (continue r f s).0 ≡ ok b
      → (a : A) × (r ≡ ok a) × ((f a s).0 ≡ ok b)
  continue-ok (err causes) f s h = absurd (cc)
  continue-ok (ok a) f s h = (a, refl, h)

module _ {S : Type 0} (p : Platform) (u : Unicode) (interrupted : S → Error × S) where
  admit_controls-ok :
      (root : Bytes) (cs : List Control) (seen : List Bytes) (caches : Caches) (s : S)
      {cs' : List Control} {caches' : Caches}
      → IsCache p u root caches
      → (admit_controls p u interrupted root cs seen caches s).0 ≡ ok (cs', caches')
      → AdmittedControls p u root seen cs cs' × IsCache p u root caches'
  unfolding admit_controls
  admit_controls-ok root [] seen caches s {cs'} {caches'} inv h =
      subst
        (λ (z : List Control × Caches).
          AdmittedControls p u root seen [] z.0 × IsCache p u root z.1)
        (ok-injective h) (tt, inv)
  admit_controls-ok root (c ∷ cs) seen caches s {cs'} {caches'} inv h =
      let (polled, s1) = poll p u interrupted s in
      let (t, h0, k0) = continue-ok polled _ s1 h in
      let ((c', seen', k), h1, k1) = continue-ok (admit_control p u root c seen caches) _ s1 k0 in
      let (behind, s2) = admit_controls p u interrupted root cs seen' k s1 in
      let ((rest, last), h2, k2) = continue-ok behind _ s2 k1 in
      let (new, is, same, sound) =
        admit_control-ok p u root c seen caches {c' = c'} {seen' = seen'} {caches' = k} inv h1 in
      let (all_rest, end) =
        admit_controls-ok root cs seen' k s1 {cs' = rest} {caches' = last} sound h2 in
      subst
        (λ (z : List Control × Caches).
          AdmittedControls p u root seen (c ∷ cs) z.0 × IsCache p u root z.1)
        {x = (c' ∷ rest, last)} (ok-injective k2)
        ((new, is, subst (λ z. AdmittedControls p u root z cs rest) same all_rest), end)

  admit_profile-ok :
      (root : Bytes) (f : Profile) (seen : List Bytes) (caches : Caches) (s : S) {f' : Profile}
      {seen' : List Bytes} {caches' : Caches}
      → IsCache p u root caches
      → (admit_profile p u interrupted root f seen caches s).0 ≡ ok (f', seen', caches')
      → IsAdmittedProfile p u root seen f f' × (seen' ≡ f.id ∷ seen) × IsCache p u root caches'
  unfolding admit_profile
  admit_profile-ok root f seen caches s {f'} {seen'} {caches'} inv h =
      elim (Bool-cases (
        not (valid_identifier f.id)
        || member f.id seen
        || length f.controls == 0
        || ltb max_controls (length f.controls))) [
          | inl bad ↦ absurd (refusal-ok (invalid_plan ∷ []) (rw bad at h))
          | inr good ↦
              let ((controls, k), h1, k1) =
                continue-ok (admit_controls p u interrupted root f.controls [] caches s).0 _
                  (admit_controls p u interrupted root f.controls [] caches s).1 (rw good at h) in
              let (all_controls, sound) =
                admit_controls-ok root f.controls [] caches s {cs' = controls} {caches' = k} inv
                  h1 in
              subst
                (λ (z : Profile × List Bytes × Caches).
                  IsAdmittedProfile p u root seen f z.0
                  × (z.1 ≡ f.id ∷ seen)
                  × IsCache p u root z.2)
                {x = (record { id = f.id; controls = controls }, f.id ∷ seen, k)} (ok-injective k1)
                (
                  record {
                    identified = ground arith;
                    new = ground arith;
                    some_controls = ground arith;
                    few_controls = ground arith;
                    same = refl;
                    controls = all_controls;
                  },
                  refl,
                  sound,
                )
        ]

  admit_profiles-ok :
      (root : Bytes) (fs : List Profile) (seen : List Bytes) (caches : Caches) (s : S)
      {fs' : List Profile}
      → IsCache p u root caches
      → (admit_profiles p u interrupted root fs seen caches s).0 ≡ ok fs'
      → AdmittedProfiles p u root seen fs fs'
  unfolding admit_profiles
  admit_profiles-ok root [] seen caches s {fs'} inv h =
      subst (AdmittedProfiles p u root seen []) (ok-injective h) tt
  admit_profiles-ok root (f ∷ fs) seen caches s {fs'} inv h =
      let (polled, s1) = poll p u interrupted s in
      let (t, h0, k0) = continue-ok polled _ s1 h in
      let (one, s2) = admit_profile p u interrupted root f seen caches s1 in
      let ((f', seen', k), h1, k1) = continue-ok one _ s2 k0 in
      let (behind, s3) = admit_profiles p u interrupted root fs seen' k s2 in
      let (rest, h2, k2) = continue-ok behind _ s3 k1 in
      let (is, same, sound) =
        admit_profile-ok root f seen caches s1 {f' = f'} {seen' = seen'} {caches' = k} inv h1 in
      subst (AdmittedProfiles p u root seen (f ∷ fs)) {x = f' ∷ rest} (ok-injective k2) (
        is,
        subst (λ z. AdmittedProfiles p u root z fs rest) same
            (admit_profiles-ok root fs seen' k s2 {fs' = rest} sound h2),
      )

  -- What `admit` has checked of a plan, and what it returns.
  pub record IsAdmitted (root : Bytes) (plan plan' : Plan) : Type 0 where
    pub header : valid_plan_header (Platform.is_abs p root) root plan ≡ true
    pub aggregate : valid_plan_aggregate plan max_plan_controls max_plan_bytes ≡ true
    pub directory : Platform.is_directory p (Platform.clean p root) ≡ ok true
    pub same : plan'.id ≡ plan.id
    pub profiles : AdmittedProfiles p u (Platform.clean p root) [] plan.profiles plan'.profiles

  start-IsCache :
      (root : Bytes) → IsCache p u root (record { executables = []; directories = ([], root) ∷ [] })
  start-IsCache root = record {
    at_executable = λ k v h. absurd (unfold lookup in ground arith);
    at_directory = λ k v h. elim (lookup-new p u root [] k root v [] h) [
      | inl (a, b) ↦ inl (sym a, sym b)
      | inr old ↦ absurd (unfold lookup in ground arith)
    ];
  }

  -- What `admit` returns is the plan with the same identifiers, in the same order and none twice, where
  -- every control is in bounds, runs the canonical path of a regular file in a directory inside the
  -- root or the root itself, and is copied else; the plan is within the limits on it as a whole.
  pub admit-ok :
      (root : Bytes) (plan : Plan) (s : S) {plan' : Plan}
      → (admit p u interrupted root plan s).0 ≡ ok plan'
      → IsAdmitted root plan plan'
  unfolding admit
  admit-ok root plan s {plan'} h =
      let clean = Platform.clean p root in
      let start : Caches = record { executables = []; directories = ([], clean) ∷ [] } in
      elim (Bool-cases (valid_plan_header (Platform.is_abs p root) root plan)) [
        | inr bad ↦ absurd (refusal-ok (invalid_plan ∷ []) (rw bad at h))
        | inl header ↦
            elim (Bool-cases (valid_plan_aggregate plan max_plan_controls max_plan_bytes)) [
              | inr bad ↦ absurd (refusal-ok (invalid_plan ∷ []) (rw (header, bad) at h))
              | inl aggregate ↦ elim (Result-cases (Platform.is_directory p clean)) [
                | inr (e, r) ↦
                    absurd (refusal-ok (invalid_plan ∷ e) (rw (header, aggregate, r) at h))
                | inl (false, r) ↦
                    absurd (refusal-ok (invalid_plan ∷ []) (rw (header, aggregate, r) at h))
                | inl (true, r) ↦
                    let (ps, h1, k1) =
                      continue-ok (admit_profiles p u interrupted clean plan.profiles [] start s).0
                        _ (admit_profiles p u interrupted clean plan.profiles [] start s).1
                        (rw (header, aggregate, r) at h) in
                    let all_profiles =
                      admit_profiles-ok clean plan.profiles [] start s {fs' = ps}
                        (start-IsCache clean) h1 in
                    subst (IsAdmitted root plan) {x = record { id = plan.id; profiles = ps }}
                      (ok-injective k1)
                      (record {
                        header = header;
                        aggregate = aggregate;
                        directory = r;
                        same = refl;
                        profiles = all_profiles;
                      })
              ]
            ]
      ]
