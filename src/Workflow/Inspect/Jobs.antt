-- ===== src/Workflow/Inspect/Jobs.antt =====
-- goverify/workflow.go: `InspectWorkflowReferences` finds nothing but immutable references, in order.
use verify.Prelude.{Bool-cases, [], arith, inl, inr, not, ◌≡◌, length, ltb, ◌||◌, ◌∷◌}
use verify.Text.{Bytes, codes}
use verify.Text.Utf8.{Unicode, valid_string}
use verify.Errors.{>>=-eq-ok, if_false-ok, ok, Result, ◌>>=◌, workflow_references}
use verify.Workflow.{workflow_action, max_workflow_bytes}
use verify.Workflow.Paths.{Filepath}
use verify.Workflow.Tree.{Node, Nodes, child, contents, no_nodes, workflow_field}
use verify.Workflow.Inspect.{
  References, append_job_references, append_service_references, append_step_references,
  append_workflow_reference, is_mapping, jobs_from, steps_from, with_field, workflow_references_in,
  append_container_reference,
}
use verify.Workflow.Inspect.Order.{IsSorted, length-sort, sort, sort-All, sort-IsSorted}
use verify.Workflow.Inspect.Source.{
  Yaml, inspect_workflow_references, decode_workflow, valid_workflow_lines,
}
use verify.Workflow.Inspect.Governed.{
  IsBounded, services_from-IsBounded, uses-IsBounded, with_field-IsBounded, IsGoverned,
  container-IsBounded,
}

module _ (u : Unicode) (f : Filepath) where
  steps_from-IsBounded :
      (references : References) (content : Nodes) {after : References}
      → IsBounded u f references
      → steps_from u f references content ≡ ok after
      → IsBounded u f after
  unfolding steps_from
  steps_from-IsBounded references no_nodes {after} b e =
      let same : after ≡ references = ground arith in rw same b
  steps_from-IsBounded references (child step rest) {after} b e =
      elim (Bool-cases (is_mapping step)) [
        | inr unmapped ↦ absurd (ground arith)
        | inl mapping ↦
            let (middle, first, behind) =
              >>=-eq-ok
                (with_field (workflow_field step (codes "uses"))
                  (append_workflow_reference u f references workflow_action) references)
                (λ r. steps_from u f r rest) {last = after} (ground arith) in
            steps_from-IsBounded middle rest
              (uses-IsBounded u f references (workflow_field step (codes "uses")) b first) behind
      ]

  pub steps-IsBounded :
      (references : References) (job : Node) {after : References}
      → IsBounded u f references
      → append_step_references u f references job ≡ ok after
      → IsBounded u f after
  unfolding append_step_references
  steps-IsBounded references job b e =
      with_field-IsBounded u f (workflow_field job (codes "steps")) _ references
        (λ steps last h. steps_from-IsBounded references (contents steps) b (if_false-ok _ _ h)) b e

  services-IsBounded :
      (references : References) (job : Node) {after : References}
      → IsBounded u f references
      → append_service_references u f references job ≡ ok after
      → IsBounded u f after
  unfolding append_service_references
  services-IsBounded references job b e =
      with_field-IsBounded u f (workflow_field job (codes "services")) _ references
        (λ services last h.
          services_from-IsBounded u f references (contents services) b (if_false-ok _ _ h))
        b e

  -- `appendJobReferences` behind its containers, and behind what the job uses.
  abbrev services : Node → References → Result References
  services job s = append_service_references u f s job >>= λ t. append_step_references u f t job

  abbrev containers : Node → References → Result References
  containers job r =
      with_field (workflow_field job (codes "container")) (append_container_reference u f r) r
      >>= services job

  job-IsBounded :
      (references : References) (job : Node) {after : References}
      → IsBounded u f references
      → append_job_references u f references job ≡ ok after
      → IsBounded u f after
  unfolding append_job_references
  job-IsBounded references job {after} b e =
      let (r, uses, e1) =
        >>=-eq-ok
          (with_field (workflow_field job (codes "uses"))
            (append_workflow_reference u f references workflow_action) references)
          (containers job) {last = after} (if_false-ok (not (is_mapping job)) _ e) in
      let (s, container, e2) =
        >>=-eq-ok
          (with_field (workflow_field job (codes "container")) (append_container_reference u f r) r)
          (services job) {last = after} e1 in
      let (t, service, steps) =
        >>=-eq-ok (append_service_references u f s job) (λ t. append_step_references u f t job)
          {last = after} e2 in
      steps-IsBounded t job
        (services-IsBounded s job
          (with_field-IsBounded u f (workflow_field job (codes "container")) _ r
            (λ n last h. container-IsBounded u f r n (uses-IsBounded u f references _ b uses) h)
            (uses-IsBounded u f references _ b uses) container)
          service)
        steps

  jobs_from-IsBounded :
      (references : References) (content : Nodes) {after : References}
      → IsBounded u f references
      → jobs_from u f references content ≡ ok after
      → IsBounded u f after
  unfolding jobs_from
  jobs_from-IsBounded references no_nodes {after} b e =
      let same : after ≡ references = ground arith in rw same b
  jobs_from-IsBounded references (child key no_nodes) {after} b e =
      let same : after ≡ references = ground arith in rw same b
  jobs_from-IsBounded references (child key (child job rest)) {after} b e =
      let (middle, first, behind) =
        >>=-eq-ok (append_job_references u f references job) (λ r. jobs_from u f r rest)
          {last = after} e in
      jobs_from-IsBounded middle rest (job-IsBounded references job b first) behind

  workflow_references_in-IsBounded :
      (root : Node) {after : References}
      → workflow_references_in u f root ≡ ok after
      → IsBounded u f after
  unfolding workflow_references_in
  workflow_references_in-IsBounded root e =
      with_field-IsBounded u f (workflow_field root (codes "jobs")) _ []
        (λ jobs last h.
          jobs_from-IsBounded [] (contents jobs) (tt, ground arith) (if_false-ok _ _ h))
        (tt, ground arith) (if_false-ok (not (is_mapping root)) _ e)

found-IsGoverned :
    (u : Unicode) (f : Filepath) (decoded : Result Node) {references : References}
    → (decoded >>= λ root. workflow_references_in u f root >>= λ found. ok (sort found))
      ≡ ok references
    → IsSorted references × IsBounded u f references
found-IsGoverned u f decoded {references} e =
    let (root, whole, e1) =
      >>=-eq-ok decoded (λ root. workflow_references_in u f root >>= λ found. ok (sort found))
        {last = references} e in
    let (found, inside, e2) =
      >>=-eq-ok (workflow_references_in u f root) (λ found. ok (sort found)) {last = references}
        e1 in
    let bounded = workflow_references_in-IsBounded u f root inside in
    let same : references ≡ sort found = ground arith in
    rw same (
      sort-IsSorted found,
      (sort-All (IsGoverned u f) found bounded.0, rw (length-sort found) bounded.1),
    )

-- What `InspectWorkflowReferences` returns are at most `MaxWorkflowReferences` references in the order
-- of their lines, each immutable for its kind, and annotated with a version or with nothing.
pub inspect_workflow_references-IsGoverned :
    (y : Yaml) (u : Unicode) (f : Filepath) (source : Bytes) {references : References}
    → inspect_workflow_references y u f source ≡ ok references
    → IsSorted references × IsBounded u f references
unfolding inspect_workflow_references
inspect_workflow_references-IsGoverned y u f source {references} e =
    found-IsGoverned u f (decode_workflow y source) (
      if_false-ok
        (ltb max_workflow_bytes (length source)
          || not (valid_string source)
          || not (valid_workflow_lines source))
        (workflow_references ∷ []) e)
