-- ===== src/Workflow/Inspect.antt =====
-- goverify/workflow.go: the references in a parsed workflow, from its jobs.
pub mod Order
pub mod Source
pub mod Governed
pub mod Jobs
use verify.Prelude.{
  Bool, List, Option, [], false, if◌then◌else◌, length, none, not, some, true, ◌&&◌, ◌++◌, ◌==◌,
  ◌||◌, ◌∷◌,
}
use verify.Text.{Bytes, codes, equal}
use verify.Text.Utf8.{Unicode}
use verify.Errors.{Result, err, ok, workflow_references, ◌>>=◌}
use verify.Workflow.{
  WorkflowReference, WorkflowReferenceKind, max_workflow_references, workflow_action,
  workflow_image,
}
use verify.Workflow.Paths.{Filepath}
use verify.Workflow.References.{
  immutable_workflow_action, immutable_workflow_image, workflow_action_repository,
}
use verify.Workflow.Tree.{
  Head, Node, Nodes, child, contents, head, is_kind, mapping_node, no_nodes, node, scalar_node,
  sequence_node, workflow_field,
}
use verify.Currency.Annotation.{Annotation, parse_workflow_version_annotation}

abbrev pub References : Type 0
References = List WorkflowReference

unfoldable pub is_action : WorkflowReferenceKind → Bool
is_action workflow_action = true
is_action workflow_image = false

-- The reference with what its comment tells.
abbrev pub annotated : WorkflowReference → Result Annotation → Result WorkflowReference
annotated reference (err e) = err e
annotated reference (ok a) = ok (record reference {
  version = a.version;
  excluded_version = a.excluded;
  exclusion_reason = a.reason;
})

-- `applyWorkflowVersion`
unfoldable pub apply_workflow_version :
    Unicode → WorkflowReference → Bytes → Result WorkflowReference
unfolding is_action
apply_workflow_version u reference comment =
    if not (is_action reference.kind)
      || equal (workflow_action_repository reference.value) []
      || equal comment []
    then ok reference
    else annotated reference (parse_workflow_version_annotation u comment)

-- The test of the value for its kind.
unfoldable pub valid_for : Unicode → Filepath → WorkflowReferenceKind → Bytes → Bool
valid_for u f workflow_action value = immutable_workflow_action u f value
valid_for u f workflow_image value = immutable_workflow_image u value

-- The reference at the end of the list; any error is that of the line.
unfoldable pub appended : References → Result WorkflowReference → Result References
appended references (err e) = err (workflow_references ∷ [])
appended references (ok reference) = ok (references ++ reference ∷ [])

abbrev pub reference_of : WorkflowReferenceKind → Head → WorkflowReference
reference_of kind h = record {
  kind = kind;
  value = h.value;
  version = [];
  excluded_version = [];
  exclusion_reason = [];
  path = [];
  line = h.line;
}

-- `appendWorkflowReference`
unfoldable pub append_workflow_reference :
    Unicode → Filepath → References → WorkflowReferenceKind → Node → Result References
unfolding apply_workflow_version valid_for appended is_kind
append_workflow_reference u f references kind (node h content) =
    if length references == max_workflow_references
    then err (workflow_references ∷ [])
    else if is_kind h.kind scalar_node && equal h.tag (codes "!!null")
    then ok references
    else if not (is_kind h.kind scalar_node)
        || not (equal h.tag (codes "!!str"))
        || equal h.value []
    then err (workflow_references ∷ [])
    else if not (valid_for u f kind h.value)
    then err (workflow_references ∷ [])
    else appended references (apply_workflow_version u (reference_of kind h) h.line_comment)

-- What is done with a field, if it is found.
abbrev pub with_field : Option Node → (Node → Result References) → References → Result References
with_field none next references = ok references
with_field (some n) next references = next n

abbrev pub is_mapping : Node → Bool
is_mapping n = is_kind (Head.kind (head n)) mapping_node

-- `appendContainerReference`
unfoldable pub append_container_reference :
    Unicode → Filepath → References → Node → Result References
unfolding append_workflow_reference
append_container_reference u f references container =
    if is_mapping container
    then elim (workflow_field container (codes "image")) [
      | none ↦ err (workflow_references ∷ [])
      | some image ↦ append_workflow_reference u f references workflow_image image
    ]
    else append_workflow_reference u f references workflow_image container

-- The loop of `appendServiceReferences`, over the values at the odd places.
pub services_from : Unicode → Filepath → References → Nodes → Result References
unfolding append_workflow_reference
services_from u f references no_nodes = ok references
services_from u f references (child key no_nodes) = ok references
services_from u f references (child key (child service rest)) =
    if not (is_mapping service)
    then err (workflow_references ∷ [])
    else (with_field (workflow_field service (codes "image"))
          (append_workflow_reference u f references workflow_image) references
        >>= λ references'. services_from u f references' rest)

-- `appendServiceReferences`
unfoldable pub append_service_references :
    Unicode → Filepath → References → Node → Result References
unfolding services_from
append_service_references u f references job =
    with_field (workflow_field job (codes "services"))
      (λ services.
        if not (is_mapping services)
        then err (workflow_references ∷ [])
        else services_from u f references (contents services))
      references

-- The loop of `appendStepReferences`.
pub steps_from : Unicode → Filepath → References → Nodes → Result References
unfolding append_workflow_reference
steps_from u f references no_nodes = ok references
steps_from u f references (child step rest) =
    if not (is_mapping step)
    then err (workflow_references ∷ [])
    else (with_field (workflow_field step (codes "uses"))
          (append_workflow_reference u f references workflow_action) references
        >>= λ references'. steps_from u f references' rest)

-- `appendStepReferences`
unfoldable pub append_step_references : Unicode → Filepath → References → Node → Result References
unfolding steps_from
append_step_references u f references job =
    with_field (workflow_field job (codes "steps"))
      (λ steps.
        if not (is_kind (Head.kind (head steps)) sequence_node)
        then err (workflow_references ∷ [])
        else steps_from u f references (contents steps))
      references

-- `appendJobReferences`
unfoldable pub append_job_references : Unicode → Filepath → References → Node → Result References
unfolding append_container_reference append_service_references append_step_references
append_job_references u f references job =
    if not (is_mapping job)
    then err (workflow_references ∷ [])
    else (with_field (workflow_field job (codes "uses"))
          (append_workflow_reference u f references workflow_action) references
        >>= λ r.
            with_field (workflow_field job (codes "container")) (append_container_reference u f r) r
            >>= λ s. append_service_references u f s job >>= λ t. append_step_references u f t job)

-- The loop of `workflowReferences`, over the values at the odd places.
pub jobs_from : Unicode → Filepath → References → Nodes → Result References
unfolding append_job_references
jobs_from u f references no_nodes = ok references
jobs_from u f references (child key no_nodes) = ok references
jobs_from u f references (child key (child job rest)) =
    append_job_references u f references job >>= λ references'. jobs_from u f references' rest

-- `workflowReferences`
unfoldable pub workflow_references_in : Unicode → Filepath → Node → Result References
unfolding jobs_from
workflow_references_in u f root =
    if not (is_mapping root)
    then err (workflow_references ∷ [])
    else with_field (workflow_field root (codes "jobs"))
        (λ jobs.
          if not (is_mapping jobs)
          then err (workflow_references ∷ [])
          else jobs_from u f [] (contents jobs))
        []
