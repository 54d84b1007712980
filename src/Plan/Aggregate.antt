-- ===== src/Plan/Aggregate.antt =====
-- validate.go: the limits on a plan as a whole. `len(x) > maximum-sum` is written as a sum, as Go's
-- integers are signed.
use verify.Prelude.{
  Bool, List, Option, [], all, arith, false, if◌then◌else◌, leb, length, ltb, none, not, some, ℕ,
  ◌&&◌, ◌+◌, ◌==◌, ◌||◌, ◌∷◌, ◌≡◌, ◌≤◌, Bool-cases, inl, inr, true, ◌∙◌, ◌⊎◌, refl, ◌<◌, ap, dec_le,
}
use verify.Text.{Bytes}
use verify.Plan.{
  Control, Plan, Profile, max_arguments, max_environment, max_path_bytes, max_profiles, size,
}
use verify.Plan.Names.{valid_identifier}
use verify.Plan.Strings.{total_bytes}

-- `validPlanHeader`, by whether the root is absolute.
unfoldable pub valid_plan_header : Bool → Bytes → Plan → Bool
valid_plan_header absolute root plan =
    absolute
    && leb (length root) max_path_bytes
    && valid_identifier plan.id
    && ltb 0 (length plan.profiles)
    && leb (length plan.profiles) max_profiles

-- The bytes that a control brings.
unfoldable pub material : Control → ℕ
material control =
    let c = control.command in
    length control.id
    + length control.name
    + length c.executable
    + length c.directory
    + length c.input
    + size c.expected_stdout
    + size c.expected_stderr
    + total_bytes c.arguments
    + total_bytes c.environment

unfoldable pub few_strings : Control → Bool
few_strings control = not (
    ltb max_arguments (length control.command.arguments)
    || ltb max_environment (length control.command.environment))

-- The inner loop of `validPlanAggregate`: the bytes so far, behind the controls of a profile.
unfoldable pub aggregate_controls : ℕ → ℕ → List Control → Option ℕ
unfolding material few_strings
aggregate_controls maximum bytes [] = some bytes
aggregate_controls maximum bytes (control ∷ controls) =
    let rest = aggregate_controls maximum (bytes + material control) controls in
    if not (few_strings control)
    then none
    else if ltb maximum (bytes + material control)
    then none
    else rest

-- The outer loop: the controls so far, behind the profiles.
unfoldable pub aggregate_profiles : ℕ → ℕ → ℕ → ℕ → List Profile → Option ℕ
unfolding aggregate_controls
aggregate_profiles maximum_controls maximum_bytes controls bytes [] = some controls
aggregate_profiles maximum_controls maximum_bytes controls bytes (profile ∷ profiles) =
    if ltb maximum_bytes (bytes + length profile.id)
    then none
    else if ltb maximum_controls (controls + length profile.controls)
    then none
    else elim (aggregate_controls maximum_bytes (bytes + length profile.id) profile.controls) [
      | none ↦ none
      | some bytes' ↦
          aggregate_profiles maximum_controls maximum_bytes (controls + length profile.controls)
            bytes' profiles
    ]

-- `validPlanAggregate`
unfoldable pub valid_plan_aggregate : Plan → ℕ → ℕ → Bool
unfolding aggregate_profiles
valid_plan_aggregate plan maximum_controls maximum_bytes =
    if maximum_controls == 0 || maximum_bytes == 0
    then false
    else elim (aggregate_profiles maximum_controls maximum_bytes 0 (length plan.id) plan.profiles) [
      | none ↦ false
      | some controls ↦ not (controls == 0)
    ]

-- The sums that the limits are about.
abbrev pub controls_bytes : List Control → ℕ
controls_bytes [] = 0
controls_bytes (c ∷ cs) = material c + controls_bytes cs

abbrev pub profiles_bytes : List Profile → ℕ
profiles_bytes [] = 0
profiles_bytes (p ∷ ps) = length p.id + controls_bytes p.controls + profiles_bytes ps

abbrev pub profiles_controls : List Profile → ℕ
profiles_controls [] = 0
profiles_controls (p ∷ ps) = length p.controls + profiles_controls ps

abbrev pub all_few : List Profile → Bool
all_few ps = all (λ p. all few_strings p.controls) ps

grown :
    (few rest : Bool) (maximum bytes m more : ℕ)
    → (if not few
        then none
        else if ltb maximum (bytes + m)
        then none
        else if rest && leb (bytes + m + more) maximum
        then some (bytes + m + more)
        else none)
      ≡ (if few && rest && leb (bytes + (m + more)) maximum
          then some (bytes + (m + more))
          else none)
grown few rest maximum bytes m more = ground arith

aggregate_controls-cons :
    (maximum bytes : ℕ) (c : Control) (cs : List Control)
    → aggregate_controls maximum bytes (c ∷ cs) ≡ (
        if not (few_strings c)
        then none
        else if ltb maximum (bytes + material c)
        then none
        else aggregate_controls maximum (bytes + material c) cs)
unfolding aggregate_controls
aggregate_controls-cons maximum bytes c cs = refl

aggregate_step :
    (maximum bytes : ℕ) (c : Control) (cs : List Control)
    → (ltb maximum (bytes + material c) ≡ true) ⊎ (ltb maximum (bytes + material c) ≡ false)
    → {o : Option ℕ}
    → (bytes + material c ≤ maximum → aggregate_controls maximum (bytes + material c) cs ≡ o)
    → aggregate_controls maximum bytes (c ∷ cs)
      ≡ (if not (few_strings c) then none else if ltb maximum (bytes + material c) then none else o)
aggregate_step maximum bytes c cs (inl over) ih =
    aggregate_controls-cons maximum bytes c cs ∙ rw over
aggregate_step maximum bytes c cs (inr fits) ih =
    aggregate_controls-cons maximum bytes c cs ∙ rw (fits, ih (ground arith))

aggregate_controls_lem :
    (maximum bytes : ℕ) (cs : List Control)
    → bytes ≤ maximum
    → aggregate_controls maximum bytes cs ≡ (
        if all few_strings cs && leb (bytes + controls_bytes cs) maximum
        then some (bytes + controls_bytes cs)
        else none)
aggregate_controls_lem maximum bytes [] h = unfold aggregate_controls in ground arith
aggregate_controls_lem maximum bytes (c ∷ cs) h =
    aggregate_step maximum bytes c cs (Bool-cases (ltb maximum (bytes + material c)))
      (λ fits. aggregate_controls_lem maximum (bytes + material c) cs fits)
    ∙ grown (few_strings c) (all few_strings cs) maximum bytes (material c) (controls_bytes cs)

-- The limits on the controls and the bytes of profiles, behind what is counted already.
abbrev pub fits_limits : ℕ → ℕ → ℕ → ℕ → List Profile → Bool
fits_limits maximum_controls maximum_bytes controls bytes ps =
    all_few ps
    && leb (bytes + profiles_bytes ps) maximum_bytes
    && leb (controls + profiles_controls ps) maximum_controls

aggregate_profiles-first :
    (mc mb c b : ℕ) (p : Profile) (ps : List Profile)
    → aggregate_profiles mc mb c b (p ∷ ps) ≡ (
        if ltb mb (b + length p.id)
        then none
        else if ltb mc (c + length p.controls)
        then none
        else elim (aggregate_controls mb (b + length p.id) p.controls) [
          | none ↦ none
          | some b' ↦ aggregate_profiles mc mb (c + length p.controls) b' ps
        ])
unfolding aggregate_profiles
aggregate_profiles-first mc mb c b p ps = refl

aggregate_profiles-cons :
    (mc mb c b : ℕ) (p : Profile) (ps : List Profile)
    → b ≤ mb
    → ((b' : ℕ)
        → b' ≤ mb
        → c + length p.controls ≤ mc
        → aggregate_profiles mc mb (c + length p.controls) b' ps ≡ (
            if fits_limits mc mb (c + length p.controls) b' ps
            then some (c + length p.controls + profiles_controls ps)
            else none))
    → aggregate_profiles mc mb c b (p ∷ ps)
      ≡ (if fits_limits mc mb c b (p ∷ ps) then some (c + profiles_controls (p ∷ ps)) else none)
aggregate_profiles-cons mc mb c b p ps h ih =
    let id = length p.id in
    let n = length p.controls in
    let k = controls_bytes p.controls in
    let few = all few_strings p.controls in
    aggregate_profiles-first mc mb c b p ps ∙ elim (Bool-cases (ltb mb (b + id))) [
      | inl over ↦ rw over (ground arith)
      | inr fits ↦ elim (Bool-cases (ltb mc (c + n))) [
        | inl many ↦ rw (fits, many) (ground arith)
        | inr count ↦
            rw (fits, count, aggregate_controls_lem mb (b + id) p.controls (ground arith))
              (elim (Bool-cases (few && leb (b + id + k) mb)) [
                | inl room ↦ rw room (ih (b + id + k) (ground arith) (ground arith) ∙ ground arith)
                | inr full ↦ rw full (ground arith)
              ])
      ]
    ]

aggregate_profiles_lem :
    (mc mb c b : ℕ) (ps : List Profile)
    → b ≤ mb
    → c ≤ mc
    → aggregate_profiles mc mb c b ps
      ≡ (if fits_limits mc mb c b ps then some (c + profiles_controls ps) else none)
aggregate_profiles_lem mc mb c b [] h l = unfold aggregate_profiles in ground arith
aggregate_profiles_lem mc mb c b (p ∷ ps) h l =
    aggregate_profiles-cons mc mb c b p ps h
      (λ b' h' l'. aggregate_profiles_lem mc mb (c + length p.controls) b' ps h' l')

-- A plan with an identifier past the limit has no profile that fits.
aggregate_profiles-past :
    (mc mb c b : ℕ) (p : Profile) (ps : List Profile)
    → mb < b
    → aggregate_profiles mc mb c b (p ∷ ps) ≡ none
aggregate_profiles-past mc mb c b p ps h = aggregate_profiles-first mc mb c b p ps ∙ ground arith

abbrev some_controls : Option ℕ → Bool
some_controls o = elim o [ none ↦ false | some controls ↦ not (controls == 0) ]

valid_plan_aggregate-parts :
    (plan : Plan) (mc mb : ℕ)
    → 0 < mc
    → 0 < mb
    → valid_plan_aggregate plan mc mb
      ≡ some_controls (aggregate_profiles mc mb 0 (length plan.id) plan.profiles)
unfolding valid_plan_aggregate
valid_plan_aggregate-parts plan mc mb h k =
    let no_test : (mc == 0 || mb == 0) ≡ false = ground arith in rw no_test

some_controls-if : (b : Bool) (n : ℕ) → some_controls (if b then some n else none) ≡ (ltb 0 n && b)
some_controls-if b n = ground arith

aggregate_profiles-valid :
    (mc mb b : ℕ) (ps : List Profile)
    → 0 < mc
    → some_controls (aggregate_profiles mc mb 0 b ps)
      ≡ (ltb 0 (profiles_controls ps) && fits_limits mc mb 0 b ps)
aggregate_profiles-valid mc mb b [] h = unfold aggregate_profiles in refl
aggregate_profiles-valid mc mb b (p ∷ ps) h = elim (dec_le b mb) [
  | yes fits ↦
      ap some_controls (aggregate_profiles_lem mc mb 0 b (p ∷ ps) fits (omega arith))
      ∙ some_controls-if (fits_limits mc mb 0 b (p ∷ ps)) (0 + profiles_controls (p ∷ ps))
      ∙ ap (λ n. ltb 0 n && fits_limits mc mb 0 b (p ∷ ps)) (omega arith)
  | no over ↦ ap some_controls (aggregate_profiles-past mc mb 0 b p ps (omega arith)) ∙ ground arith
]

-- `validPlanAggregate` admits exactly the plans with some control, no more controls and bytes in all
-- than the limits, and no command with too many arguments or environment entries. The limits are
-- positive.
pub valid_plan_aggregate_lem :
    (plan : Plan) (mc mb : ℕ)
    → 0 < mc
    → 0 < mb
    → valid_plan_aggregate plan mc mb ≡ (
        ltb 0 (profiles_controls plan.profiles)
        && fits_limits mc mb 0 (length plan.id) plan.profiles)
valid_plan_aggregate_lem plan mc mb h k =
    valid_plan_aggregate-parts plan mc mb h k
    ∙ aggregate_profiles-valid mc mb (length plan.id) plan.profiles h
