-- ===== src/Local/Verify.antt =====
-- goverify/workflow.go and goverify/workflow_currency.go: the verification of the references of all
-- workflows, from an opened root. The closing of the root is left out.
use verify.Prelude.{List, [], false, if◌then◌else◌, map, ◌++◌, ◌∷◌}
use verify.Text.{Bytes, equal}
use verify.Errors.{Result, err, joined, ok, workflow_currency, workflow_references, ◌>>=◌, is_nil}
use verify.Source.{read_bounded_source_limit}
use verify.Workflow.{WorkflowReference, max_workflow_bytes}
use verify.Workflow.Paths.{Filepath}
use verify.Workflow.References.{workflow_action_repository}
use verify.Workflow.Inspect.{References}
use verify.Workflow.Inspect.Source.{inspect_workflow_references}
use verify.Workflow.Admission.{Files, admit_root_path}
use verify.Local.{Owner}
use verify.Local.Walk.{Setting, expand_references, located, polled}

-- Dependencies by their repositories, in the order in which they come up.
abbrev pub Dependencies : Type 0
Dependencies = List (Bytes × References)

unfoldable pub add_dependency : Bytes → WorkflowReference → Dependencies → Dependencies
add_dependency repository reference [] = (repository, reference ∷ []) ∷ []
add_dependency repository reference ((key, references) ∷ dependencies) =
    let rest = add_dependency repository reference dependencies in
    if equal key repository
    then (key, references ++ reference ∷ []) ∷ dependencies
    else (key, references) ∷ rest

-- `addWorkflowDependencies`
unfoldable pub add_workflow_dependencies : Dependencies → References → Dependencies
unfolding add_dependency
add_workflow_dependencies dependencies [] = dependencies
add_workflow_dependencies dependencies (reference ∷ references) =
    let repository = workflow_action_repository reference.value in
    add_workflow_dependencies
      (if equal repository []
        then dependencies
        else add_dependency repository reference dependencies)
      references

module _ (s : Setting) where
  open s use {World, context_error, files, yaml, unicode, filepath, workflows}

  -- `readWorkflowReferences` behind the admission of the path.
  unfoldable pub inspected_file : Bytes → Result References
  inspected_file native = elim (Files.open_file files native) [
    | err e ↦ err (workflow_references ∷ e)
    | ok file ↦ read_bounded_source_limit file workflow_references max_workflow_bytes >>= λ source.
        inspect_workflow_references yaml unicode filepath source
  ]

  -- `readWorkflowReferences`
  unfoldable pub read_workflow_references : Bytes → Result References
  unfolding inspected_file
  read_workflow_references path =
      let native = Filepath.from_slash filepath path in
      elim (admit_root_path filepath files native false) [
        | c ∷ cs ↦ err (workflow_references ∷ c ∷ cs)
        | [] ↦ inspected_file native >>= λ references. ok (map (located path) references)
      ]

  -- The loop of `VerifyWorkflowReferences`.
  unfoldable pub verify_paths : Owner World → List Bytes → Result (Owner World)
  unfolding read_workflow_references
  verify_paths owner [] = ok owner
  verify_paths owner (path ∷ paths) = polled s owner >>= λ o.
      read_workflow_references path >>= λ references.
      polled s o >>= λ p. expand_references s p references >>= λ r. verify_paths r.1 paths

  -- The owner behind a poll, with the error as it is.
  unfoldable pub polled_plain : Owner World → Result (Owner World)
  polled_plain owner =
      let (e, world) = context_error owner.world in
      if is_nil e then ok (record owner { world = world }) else err e

  -- One turn of `readWorkflowDependencies`, up to the expanded references.
  abbrev pub expanded_path : Owner World → Bytes → Result (References × Owner World)
  expanded_path owner path = polled_plain owner >>= λ o.
      read_workflow_references path >>= λ references. expand_references s o references

  -- The loop of `readWorkflowDependencies`; its errors are joined to its own.
  unfoldable pub dependencies_from : Owner World → Dependencies → List Bytes → Result Dependencies
  unfolding read_workflow_references polled_plain
  dependencies_from owner dependencies [] = ok dependencies
  dependencies_from owner dependencies (path ∷ paths) =
      joined workflow_currency (expanded_path owner path) >>= λ r.
      dependencies_from r.1 (add_workflow_dependencies dependencies r.0) paths
