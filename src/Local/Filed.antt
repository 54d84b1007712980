-- ===== src/Local/Filed.antt =====
-- goverify/workflow_currency.go: the dependencies that are read stand under their repositories.
use verify.Prelude.{
  All, All-append, Bool-cases, List, [], arith, false, if_elim, inl, inr, map, refl, subst, sym,
  ◌∙◌, ◌∷◌, ◌≡◌, if◌then◌else◌,
}
use verify.Text.{Bytes, equal, equal_iff}
use verify.Text.Utf8.{Unicode}
use verify.Errors.{
  >>=-eq-ok, Error-cases, Result-cases, is_nil, joined, ok, ok-injective, workflow_currency,
  workflow_references, ◌>>=◌, joined-ok,
}
use verify.Source.{read_bounded_source_limit}
use verify.Workflow.{WorkflowReference, max_workflow_bytes}
use verify.Workflow.Paths.{Filepath}
use verify.Workflow.References.{workflow_action_repository}
use verify.Workflow.Inspect.{References}
use verify.Workflow.Inspect.Source.{inspect_workflow_references}
use verify.Workflow.Inspect.Governed.{IsGoverned}
use verify.Workflow.Inspect.Jobs.{inspect_workflow_references-IsGoverned}
use verify.Workflow.Admission.{Files, admit_root_path}
use verify.Local.{Owner}
use verify.Local.Walk.{Setting, expand_references, located}
use verify.Local.Sound.{IsRemote, IsSound, located-IsGoverned}
use verify.Local.Steps.{expand_references-IsStep}
use verify.Local.Verify.{
  Dependencies, add_dependency, add_workflow_dependencies, dependencies_from, expanded_path,
  inspected_file, polled_plain, read_workflow_references,
}

-- References of one repository, immutable ones that lead out of the repository at hand.
abbrev pub IsFiled : Unicode → Filepath → Bytes × References → Type 0
IsFiled u f (repository, references) =
    All
      (λ r. IsRemote u f r × (workflow_action_repository (WorkflowReference.value r) ≡ repository))
      references

module _ (u : Unicode) (f : Filepath) where
  add_dependency-IsFiled :
      (repository : Bytes) (reference : WorkflowReference) (dependencies : Dependencies)
      → IsRemote u f reference
      → workflow_action_repository reference.value ≡ repository
      → All (IsFiled u f) dependencies
      → All (IsFiled u f) (add_dependency repository reference dependencies)
  unfolding add_dependency
  add_dependency-IsFiled repository reference [] k e h = (((k, e), tt), tt)
  add_dependency-IsFiled repository reference ((key, references) ∷ dependencies) k e h =
      if_elim (All (IsFiled u f)) (equal key repository)
        (λ same. (
          All-append _ references (reference ∷ []) h.0
              ((k, e ∙ sym ((equal_iff key repository).0 same)), tt),
          h.1,
        ))
        (λ apart. (h.0, add_dependency-IsFiled repository reference dependencies k e h.1))

  pub add_workflow_dependencies-IsFiled :
      (dependencies : Dependencies) (references : References)
      → All (IsRemote u f) references
      → All (IsFiled u f) dependencies
      → All (IsFiled u f) (add_workflow_dependencies dependencies references)
  unfolding add_workflow_dependencies
  add_workflow_dependencies-IsFiled dependencies [] k h = h
  add_workflow_dependencies-IsFiled dependencies (reference ∷ references) k h =
      let repository = workflow_action_repository reference.value in
      add_workflow_dependencies-IsFiled
        (if equal repository []
          then dependencies
          else add_dependency repository reference dependencies)
        references k.1
        (if_elim (All (IsFiled u f)) (equal repository []) (λ nothing. h)
          (λ something. add_dependency-IsFiled repository reference dependencies k.0 refl h))

module _ (s : Setting) where
  open s use {World, context_error, files, yaml, unicode, filepath, workflows}

  inspected_file-IsGoverned :
      (native : Bytes) {found : References}
      → inspected_file s native ≡ ok found
      → All (IsGoverned unicode filepath) found
  unfolding inspected_file
  inspected_file-IsGoverned native {found} e = elim (Result-cases (Files.open_file files native)) [
    | inr (c, h) ↦ absurd (ground arith)
    | inl (file, h) ↦
        let chain : (read_bounded_source_limit file workflow_references max_workflow_bytes
              >>= λ source. inspect_workflow_references yaml unicode filepath source)
            ≡ ok found =
          ground arith in
        let (source, reading, inspected) =
          >>=-eq-ok (read_bounded_source_limit file workflow_references max_workflow_bytes)
            (λ source. inspect_workflow_references yaml unicode filepath source) {last = found}
            chain in
        (inspect_workflow_references-IsGoverned yaml unicode filepath source inspected).1.0
  ]

  read_workflow_references-IsGoverned :
      (path : Bytes) {references : References}
      → read_workflow_references s path ≡ ok references
      → All (IsGoverned unicode filepath) references
  unfolding read_workflow_references
  read_workflow_references-IsGoverned path {references} e =
      elim (Error-cases
        (admit_root_path filepath files (Filepath.from_slash filepath path) false)) [
          | inr (c, cs, refused) ↦ absurd (ground arith)
          | inl admitted ↦
              elim (Result-cases (inspected_file s (Filepath.from_slash filepath path))) [
                | inr (c, h) ↦ absurd (ground arith)
                | inl (found, h) ↦
                    let same : ok (map (located path) found) ≡ ok references = ground arith in
                    subst (All (IsGoverned unicode filepath)) (ok-injective same) (
                      located-IsGoverned unicode filepath path found
                        (inspected_file-IsGoverned (Filepath.from_slash filepath path) h))
              ]
        ]

  polled_plain-IsSound :
      (o : Owner World) {p : Owner World} → IsSound o → polled_plain s o ≡ ok p → IsSound p
  unfolding polled_plain
  polled_plain-IsSound o {p} k e = elim (Bool-cases (is_nil (context_error o.world).0)) [
    | inr h ↦ absurd (ground arith)
    | inl h ↦
        let same : ok (record o { world = (context_error o.world).1 }) ≡ ok p = rw h at e in
        subst IsSound (ok-injective same) (record {
          actions_limit = k.actions_limit;
          bytes_limit = k.bytes_limit;
          references_limit = k.references_limit;
          distinct = k.distinct;
        })
  ]

  -- What `readWorkflowDependencies` returns are immutable references that lead out of the repository,
  -- each in the list of the repository that it names.
  pub dependencies_from-IsFiled :
      (o : Owner World) (dependencies : Dependencies) (paths : List Bytes) {after : Dependencies}
      → IsSound o
      → All (IsFiled unicode filepath) dependencies
      → dependencies_from s o dependencies paths ≡ ok after
      → All (IsFiled unicode filepath) after
  unfolding dependencies_from
  dependencies_from-IsFiled o dependencies [] w h e =
      subst (All (IsFiled unicode filepath)) (ok-injective e) h
  dependencies_from-IsFiled o dependencies (path ∷ paths) {after} w h e =
      let (r, first, behind) =
        >>=-eq-ok (joined workflow_currency (expanded_path s o path))
          (λ r. dependencies_from s r.1 (add_workflow_dependencies dependencies r.0) paths)
          {last = after} e in
      let (p, polled_here, e1) =
        >>=-eq-ok (polled_plain s o)
          (λ p. read_workflow_references s path >>= λ references. expand_references s p references)
          {last = r} (joined-ok workflow_currency _ first) in
      let (references, reading, e2) =
        >>=-eq-ok (read_workflow_references s path) (λ references. expand_references s p references)
          {last = r} e1 in
      let x =
        expand_references-IsStep s p references {r = r} (polled_plain-IsSound o w polled_here)
          (read_workflow_references-IsGoverned path reading) e2 in
      dependencies_from-IsFiled r.1 (add_workflow_dependencies dependencies r.0) paths x.sound
        (add_workflow_dependencies-IsFiled unicode filepath dependencies r.0 x.remote h) behind
