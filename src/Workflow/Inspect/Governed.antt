-- ===== src/Workflow/Inspect/Governed.antt =====
-- goverify/workflow.go: every reference that is found is immutable, and they are few.
use verify.Prelude.{
  All, [], length, true, ◌≡◌, ◌≤◌, ◌⊎◌, All-append, Bool-cases, arith, false, inl, inr,
  length-append, not, refl, ◌&&◌, ◌++◌, ◌==◌, ◌||◌, ◌∷◌, Option, Option-cases, none, some,
}
use verify.Text.{Bytes, codes, equal}
use verify.Text.Utf8.{Unicode, invalid}
use verify.Errors.{ok, Result-cases, >>=-eq-ok, Result}
use verify.Workflow.{
  WorkflowReference, WorkflowReferenceKind, workflow_action, workflow_image,
  max_workflow_references,
}
use verify.Workflow.Paths.{Filepath}
use verify.Workflow.References.Pinned.{
  IsImmutable, IsPinnedImage, immutable_workflow_action-IsImmutable,
  immutable_workflow_image-IsPinnedImage,
}
use verify.Workflow.Tree.{
  Head, Node, node, is_kind, scalar_node, Nodes, child, no_nodes, workflow_field,
}
use verify.Workflow.Inspect.{
  References, append_workflow_reference, apply_workflow_version, reference_of, valid_for, appended,
  is_action, append_container_reference, is_mapping, services_from, with_field,
}
use verify.Currency.Annotation.{
  IsAnnotation, parse_workflow_version_annotation, parse_workflow_version_annotation-IsAnnotation,
}
use verify.Workflow.References.{workflow_action_repository}

-- What is promised of the value of each kind.
abbrev pub IsFixed : Unicode → Filepath → WorkflowReferenceKind → Bytes → Type 0
IsFixed u f workflow_action value = IsImmutable u f value
IsFixed u f workflow_image value = IsPinnedImage value

-- A reference is immutable, and has either no version or an annotation.
pub record IsGoverned (u : Unicode) (f : Filepath) (r : WorkflowReference) : Type 0 where
  pub fixed : IsFixed u f r.kind r.value
  pub versioned :
      ((r.version ≡ []) × (r.excluded_version ≡ []) × (r.exclusion_reason ≡ []))
      ⊎ IsAnnotation u (record {
        version = r.version;
        excluded = r.excluded_version;
        reason = r.exclusion_reason;
      })

-- A list of references within the limit.
abbrev pub IsBounded : Unicode → Filepath → References → Type 0
IsBounded u f references = All (IsGoverned u f) references × (length references ≤ 4096)

module _ (u : Unicode) (f : Filepath) where
  valid_for-IsFixed :
      (kind : WorkflowReferenceKind) (value : Bytes)
      → valid_for u f kind value ≡ true
      → IsFixed u f kind value
  unfolding valid_for
  valid_for-IsFixed workflow_action value h = immutable_workflow_action-IsImmutable u f value h
  valid_for-IsFixed workflow_image value h = immutable_workflow_image-IsPinnedImage u value h

  apply_workflow_version-IsGoverned :
      (kind : WorkflowReferenceKind) (h : Head) {r : WorkflowReference}
      → IsFixed u f kind h.value
      → apply_workflow_version u (reference_of kind h) h.line_comment ≡ ok r
      → IsGoverned u f r
  unfolding apply_workflow_version
  apply_workflow_version-IsGoverned kind h {r} fixed e =
      elim (Bool-cases (
        not (is_action kind)
        || equal (workflow_action_repository h.value) []
        || equal h.line_comment [])) [
          | inl plain ↦
              let same : r ≡ reference_of kind h = ground arith in
              rw same (record { fixed = fixed; versioned = inl (refl, refl, refl) })
          | inr commented ↦
              elim (Result-cases (parse_workflow_version_annotation u h.line_comment)) [
                | inr (c, refused) ↦ absurd (ground arith)
                | inl (a, parsed) ↦
                    let same : r ≡ record (reference_of kind h) {
                      version = a.version;
                      excluded_version = a.excluded;
                      exclusion_reason = a.reason;
                    } =
                      ground arith in
                    rw same (record {
                      fixed = fixed;
                      versioned =
                          inr (
                            parse_workflow_version_annotation-IsAnnotation u h.line_comment parsed);
                    })
              ]
        ]

  appended-IsBounded :
      (references : References) (kind : WorkflowReferenceKind) (h : Head) {after : References}
      → IsBounded u f references
      → (length references == max_workflow_references) ≡ false
      → IsFixed u f kind h.value
      → appended references (apply_workflow_version u (reference_of kind h) h.line_comment)
        ≡ ok after
      → IsBounded u f after
  unfolding appended
  appended-IsBounded references kind h {after} b room fixed e =
      elim (Result-cases (apply_workflow_version u (reference_of kind h) h.line_comment)) [
        | inr (c, refused) ↦ absurd (ground arith)
        | inl (r, applied) ↦
            let same : after ≡ references ++ r ∷ [] = ground arith in
            rw same (
              All-append (IsGoverned u f) references (r ∷ []) b.0
                  (apply_workflow_version-IsGoverned kind h fixed applied, tt),
              ground (arith, length-append references (r ∷ [])),
            )
      ]

  pub append-IsBounded :
      (references : References) (kind : WorkflowReferenceKind) (n : Node) {after : References}
      → IsBounded u f references
      → append_workflow_reference u f references kind n ≡ ok after
      → IsBounded u f after
  unfolding append_workflow_reference
  append-IsBounded references kind (node h content) {after} b e =
      elim (Bool-cases (length references == max_workflow_references)) [
        | inl full ↦ absurd (ground arith)
        | inr room ↦
            elim (Bool-cases (is_kind h.kind scalar_node && equal h.tag (codes "!!null"))) [
              | inl null ↦ let same : after ≡ references = ground arith in rw same b
              | inr present ↦ elim (Bool-cases (valid_for u f kind h.value)) [
                | inr invalid ↦ absurd (ground arith)
                | inl valid ↦
                    appended-IsBounded references kind h b room
                      (valid_for-IsFixed kind h.value valid) (ground arith)
              ]
            ]
      ]

  pub with_field-IsBounded :
      (o : Option Node) (next : Node → Result References) (references : References)
      {after : References}
      → ((n : Node) (last : References) → next n ≡ ok last → IsBounded u f last)
      → IsBounded u f references
      → with_field o next references ≡ ok after
      → IsBounded u f after
  with_field-IsBounded none next references {after} k b e =
      let same : after ≡ references = ground arith in rw same b
  with_field-IsBounded (some n) next references {after} k b e = k n after e

  pub container-IsBounded :
      (references : References) (container : Node) {after : References}
      → IsBounded u f references
      → append_container_reference u f references container ≡ ok after
      → IsBounded u f after
  unfolding append_container_reference
  container-IsBounded references container {after} b e = elim (Bool-cases (is_mapping container)) [
    | inr scalar ↦ append-IsBounded references workflow_image container b (ground arith)
    | inl mapping ↦ elim (Option-cases (workflow_field container (codes "image"))) [
      | inl missing ↦ absurd (ground arith)
      | inr (picture, found) ↦ append-IsBounded references workflow_image picture b (ground arith)
    ]
  ]

  pub services_from-IsBounded :
      (references : References) (content : Nodes) {after : References}
      → IsBounded u f references
      → services_from u f references content ≡ ok after
      → IsBounded u f after
  unfolding services_from
  services_from-IsBounded references no_nodes {after} b e =
      let same : after ≡ references = ground arith in rw same b
  services_from-IsBounded references (child key no_nodes) {after} b e =
      let same : after ≡ references = ground arith in rw same b
  services_from-IsBounded references (child key (child service rest)) {after} b e =
      elim (Bool-cases (is_mapping service)) [
        | inr unmapped ↦ absurd (ground arith)
        | inl mapping ↦
            let (middle, first, behind) =
              >>=-eq-ok
                (with_field (workflow_field service (codes "image"))
                  (append_workflow_reference u f references workflow_image) references)
                (λ r. services_from u f r rest) {last = after} (ground arith) in
            services_from-IsBounded middle rest
              (with_field-IsBounded (workflow_field service (codes "image")) _ references
                (λ n last h. append-IsBounded references workflow_image n b h) b first)
              behind
      ]

  pub uses-IsBounded :
      (references : References) (o : Option Node) {after : References}
      → IsBounded u f references
      → with_field o (append_workflow_reference u f references workflow_action) references
        ≡ ok after
      → IsBounded u f after
  uses-IsBounded references o b e =
      with_field-IsBounded o _ references
        (λ n last h. append-IsBounded references workflow_action n b h) b e
