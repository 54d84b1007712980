-- ===== src/Currency/Annotation.antt =====
-- goverify/workflow_currency.go: the comment behind a reference, which tells the version of its
-- revision, and which later version is left out for what reason.
use verify.Prelude.{
  Option, Option-cases, [], all, arith, if◌then◌else◌, inl, inr, is_some, length, ltb, none, not,
  refl, some, suc, true, zero, ℕ, ◌-◌, ◌||◌, ◌∷◌, ◌≡◌, ◌≤◌, ◌⊎◌,
}
use verify.Text.{Bytes, codes, cut, trim_prefix}
use verify.Text.Utf8.{Unicode, decode_rune, runes}
use verify.Errors.{Result, err, ok, workflow_currency}
use verify.Workflow.Paths.{valid_fuzz_text}
use verify.Currency.Version.{parse_action_version}

-- `maxWorkflowExclusionReasonBytes`
abbrev pub max_workflow_exclusion_reason_bytes : ℕ
max_workflow_exclusion_reason_bytes = 256

-- `workflowVersionAnnotation`
pub record Annotation : Type 0 where
  pub version : Bytes
  pub excluded : Bytes
  pub reason : Bytes

-- The value behind its leading spaces, from a byte that `skip` bytes of a rune precede.
pub trim_left : Unicode → ℕ → Bytes → Bytes
unfolding decode_rune
trim_left u skip [] = []
trim_left u (suc k) (x ∷ xs) = trim_left u k xs
trim_left u zero (x ∷ xs) =
    let d = decode_rune (x ∷ xs) in
    let rest = trim_left u (d.1 - 1) xs in if Unicode.is_space u d.0 then rest else x ∷ xs

-- The value before its trailing spaces.
pub trim_right : Unicode → ℕ → Bytes → Bytes
trim_right u skip [] = []
trim_right u (suc k) (x ∷ xs) = x ∷ trim_right u k xs
trim_right u zero (x ∷ xs) =
    let d = decode_rune (x ∷ xs) in
    let rest = trim_right u (d.1 - 1) xs in
    if all (λ r. Unicode.is_space u r.0) (runes (x ∷ xs)) then [] else x ∷ rest

-- `strings.TrimSpace` and `bytes.TrimSpace`
unfoldable pub trim_space : Unicode → Bytes → Bytes
unfolding trim_left trim_right
trim_space u value = trim_right u 0 (trim_left u 0 value)

-- `parseWorkflowVersionAnnotation` behind the test of the version.
unfoldable pub annotation_of : Unicode → Bytes → Option Bytes → Result Annotation
annotation_of u version none = ok (record { version = version; excluded = []; reason = [] })
annotation_of u version (some remainder) = elim (cut remainder (codes ": ")) [
  | none ↦ err (workflow_currency ∷ [])
  | some (excluded, reason) ↦
      if ltb max_workflow_exclusion_reason_bytes (length reason) || not (valid_fuzz_text u reason)
      then err (workflow_currency ∷ [])
      else if not (is_some (parse_action_version excluded))
      then err (workflow_currency ∷ [])
      else ok (record { version = version; excluded = excluded; reason = reason })
]

-- The version and what stands behind it.
unfoldable pub version_and_remainder : Bytes → Bytes × Option Bytes
version_and_remainder value = elim (cut value (codes "; exclude ")) [
  | none ↦ (value, none)
  | some (version, remainder) ↦ (version, some remainder)
]

-- `parseWorkflowVersionAnnotation`
unfoldable pub parse_workflow_version_annotation : Unicode → Bytes → Result Annotation
unfolding trim_space annotation_of version_and_remainder
parse_workflow_version_annotation u value =
    let trimmed = trim_space u (trim_prefix (trim_space u value) (codes "#")) in
    let (version, remainder) = version_and_remainder trimmed in
    if not (is_some (parse_action_version version))
    then err (workflow_currency ∷ [])
    else annotation_of u version remainder

-- What an annotation tells: a version; and with an exclusion, another one and a reason to be shown.
pub record IsAnnotation (u : Unicode) (a : Annotation) : Type 0 where
  pub versioned : is_some (parse_action_version a.version) ≡ true
  pub excluding :
      ((a.excluded ≡ []) × (a.reason ≡ []))
      ⊎ ((is_some (parse_action_version a.excluded) ≡ true)
          × (valid_fuzz_text u a.reason ≡ true)
          × (length a.reason ≤ 256))

annotation_of-IsAnnotation :
    (u : Unicode) (version : Bytes) (remainder : Option Bytes) {a : Annotation}
    → is_some (parse_action_version version) ≡ true
    → annotation_of u version remainder ≡ ok a
    → IsAnnotation u a
unfolding annotation_of
annotation_of-IsAnnotation u version none {a} v h =
    let e : a ≡ record { version = version; excluded = []; reason = [] } = cc in
    rw e (record { versioned = v; excluding = inl (refl, refl) })
annotation_of-IsAnnotation u version (some remainder) {a} v h =
    elim (Option-cases (cut remainder (codes ": "))) [
      | inl e ↦ absurd (ground arith)
      | inr ((excluded, reason), e) ↦
          let same : a ≡ record { version = version; excluded = excluded; reason = reason } =
            ground arith in
          rw same
            (record { versioned = v; excluding = inr (ground arith, ground arith, ground arith) })
    ]

pub parse_workflow_version_annotation-IsAnnotation :
    (u : Unicode) (value : Bytes) {a : Annotation}
    → parse_workflow_version_annotation u value ≡ ok a
    → IsAnnotation u a
unfolding parse_workflow_version_annotation
parse_workflow_version_annotation-IsAnnotation u value h =
    let vr = version_and_remainder (trim_space u (trim_prefix (trim_space u value) (codes "#"))) in
    annotation_of-IsAnnotation u vr.0 vr.1 (ground arith) (ground arith)
