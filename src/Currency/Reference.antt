-- ===== src/Currency/Reference.antt =====
-- goverify/workflow_currency.go: whether a reference to an action stands at the latest of its tags.
use verify.Prelude.{
  All, Bool-cases, Option-cases, [], arith, false, if◌then◌else◌, inl, inr, none, not, some, sym,
  true, ◌||◌, ◌∷◌, ◌≡◌, ◌≢◌, ◌⊎◌,
}
use verify.Errors.{Result, err, ok, workflow_currency}
use verify.Text.{Bytes, equal, equal_iff}
use verify.Text.Utf8.{Unicode}
use verify.Workflow.{WorkflowReference}
use verify.Workflow.Paths.{valid_fuzz_text}
use verify.Workflow.References.{workflow_action_revision}
use verify.Currency.Version.{ActionVersion, compare_action_version, is_zero}
use verify.Currency.Tags.{ActionTag, Tags, lookup_tag, parse_action_tags, select_latest_action_tag}
use verify.Currency.Tags.Rank.{IsNamed}
use verify.Currency.Tags.Latest.{IsLatest, select_latest_action_tag-IsLatest}
use verify.Currency.Tags.Parsed.{parse_action_tags-IsNamed}

-- `latestActionTag`
unfoldable pub latest_action_tag : Tags → ActionTag
latest_action_tag tags = select_latest_action_tag none tags

-- `latestActionTagBelow`
unfoldable pub latest_action_tag_below : Tags → ActionVersion → ActionTag
latest_action_tag_below tags excluded = select_latest_action_tag (some excluded) tags

-- `verifyActionReference` behind the look at the commit.
unfoldable pub verify_current : Unicode → WorkflowReference → Tags → ActionTag → Result {0} Unit
unfolding latest_action_tag latest_action_tag_below
verify_current u reference tags current =
    let latest = latest_action_tag tags in
    if is_zero (compare_action_version current.version latest.version)
    then (if not (equal reference.version latest.name) || not (equal reference.excluded_version [])
        then err (workflow_currency ∷ [])
        else ok tt)
    else if not (equal reference.excluded_version latest.name)
        || not (valid_fuzz_text u reference.exclusion_reason)
    then err (workflow_currency ∷ [])
    else let remaining = latest_action_tag_below tags latest.version in
      if equal remaining.name [] || not (equal reference.version remaining.name)
      then err (workflow_currency ∷ [])
      else ok tt

-- `verifyActionReference`
unfoldable pub verify_action_reference : Unicode → WorkflowReference → Tags → Result {0} Unit
unfolding verify_current
verify_action_reference u reference tags = elim (lookup_tag reference.version tags) [
  | none ↦ err (workflow_currency ∷ [])
  | some current ↦
      if not (equal current.commit (workflow_action_revision reference.value))
      then err (workflow_currency ∷ [])
      else verify_current u reference tags current
]

-- A reference stands at the commit of its tag, and that is the latest tag of all, or the latest of
-- those whose version is not that of a latest tag which the reference excludes for a reason.
pub record IsCurrent (u : Unicode) (reference : WorkflowReference) (tags : Tags) : Type 0 where
  pub pinned :
      (tag : ActionTag) × (lookup_tag reference.version tags ≡ some tag)
      × (tag.commit ≡ workflow_action_revision reference.value)
  pub latest :
      ((reference.excluded_version ≡ [])
        × ((top : ActionTag) × IsLatest none tags top × (top.name ≡ reference.version)))
      ⊎ ((valid_fuzz_text u reference.exclusion_reason ≡ true)
          × ((top : ActionTag) × IsLatest none tags top
              × (top.name ≡ reference.excluded_version)
              × ((best : ActionTag) × IsLatest (some top.version) tags best
                  × (best.name ≡ reference.version)
                  × (best.name ≢ []))))

equal-eq : (a b : Bytes) → not (equal a b) ≡ false → b ≡ a
equal-eq a b h = sym ((equal_iff a b).0 (ground arith))

equal_nil-false : (a : Bytes) → equal a [] ≡ false → a ≢ []
unfolding equal
equal_nil-false [] h = absurd (ground arith)
equal_nil-false (x ∷ a) h = λ e. absurd (ground arith)

module _ (u : Unicode) (reference : WorkflowReference) (tags : Tags)
    (named : All IsNamed tags) where
  verify_current-IsCurrent :
      (tag : ActionTag)
      → lookup_tag reference.version tags ≡ some tag
      → tag.commit ≡ workflow_action_revision reference.value
      → verify_current u reference tags tag ≡ ok tt
      → IsCurrent u reference tags
  unfolding verify_current latest_action_tag latest_action_tag_below
  verify_current-IsCurrent tag found commit e =
      let top = select_latest_action_tag none tags in
      let best = select_latest_action_tag (some top.version) tags in
      let greatest = select_latest_action_tag-IsLatest none tags named in
      let rest = select_latest_action_tag-IsLatest (some top.version) tags named in
      record {
        pinned = (tag, found, commit);
        latest = elim (Bool-cases (is_zero (compare_action_version tag.version top.version))) [
          | inl same ↦ inl (
            sym (equal-eq reference.excluded_version [] (ground arith)),
            (top, greatest, equal-eq reference.version top.name (ground arith)),
          )
          | inr lower ↦ inr (
            ground arith,
            (
              top,
              greatest,
              equal-eq reference.excluded_version top.name (ground arith),
              (
                best,
                rest,
                equal-eq reference.version best.name (ground arith),
                equal_nil-false best.name (ground arith),
              ),
            ),
          )
        ];
      }

  named_reference-IsCurrent :
      verify_action_reference u reference tags ≡ ok tt → IsCurrent u reference tags
  unfolding verify_action_reference
  named_reference-IsCurrent e = elim (Option-cases (lookup_tag reference.version tags)) [
    | inl missing ↦ absurd (ground arith)
    | inr (tag, found) ↦
        verify_current-IsCurrent tag found
          (sym (equal-eq tag.commit (workflow_action_revision reference.value) (ground arith)))
          (ground arith)
  ]

-- A reference that `verifyActionReference` admits, among the tags that `parseActionTags` returns,
-- stands at the commit of the latest tag; or of the latest one but those of an excluded version.
pub verify_action_reference-IsCurrent :
    (u : Unicode) (source : Bytes) (reference : WorkflowReference) {tags : Tags}
    → parse_action_tags source ≡ ok tags
    → verify_action_reference u reference tags ≡ ok tt
    → IsCurrent u reference tags
verify_action_reference-IsCurrent u source reference {tags} parsed e =
    named_reference-IsCurrent u reference tags (parse_action_tags-IsNamed source parsed) e
