-- ===== src/Local/Walk.antt =====
-- goverify/local_action.go: the walk. An error ends it, so the owner is returned with a value only. A
-- `bool` map is the list of the keys that are true. The walk runs on fuel, one for each action inside
-- another.
use verify.Prelude.{
  List, [], false, if◌then◌else◌, length, ltb, map, none, not, some, suc, zero, ℕ, ◌++◌, ◌+◌, ◌==◌,
  ◌∷◌,
}
use verify.Text.{Bytes, codes, cut_prefix, equal}
use verify.Text.Utf8.{Unicode}
use verify.Errors.{
  Error, Result, err, is, is_nil, not_exist, ok, workflow_references, ◌>>=◌, joined,
}
use verify.Source.{read_bounded_source_limit}
use verify.Workflow.{WorkflowReference, max_workflow_bytes, max_workflow_references}
use verify.Workflow.Paths.{Filepath, local_action_directory}
use verify.Workflow.Tree.{contains}
use verify.Workflow.Inspect.{References}
use verify.Workflow.Inspect.Source.{Yaml}
use verify.Workflow.Admission.{Files, admit_root_path}
use verify.Local.{Owner, max_local_action_bytes, max_local_actions, remove}
use verify.Local.Inspect.{inspect_local_action_references}

-- What a walk is given: the state of the context with `ctx.Err`, the files below the root, the YAML
-- decoder, the tables of package unicode, package path/filepath, and the sorted list of workflows.
pub record Setting : Type 1 where
  pub World : Type 0
  pub context_error : World → Error × World
  pub files : Files
  pub yaml : Yaml
  pub unicode : Unicode
  pub filepath : Filepath
  pub workflows : List Bytes

-- The reference with the file that it stands in.
abbrev pub located : Bytes → WorkflowReference → WorkflowReference
located path reference = record reference { path = path }

-- Enough for all actions inside one another.
abbrev pub walk_fuel : ℕ
walk_fuel = max_local_actions + 1

module _ (s : Setting) where
  open s use {World, context_error, files, yaml, unicode, filepath, workflows}

  -- The loop of `read` over the names of metadata, from what has been found.
  unfoldable pub find_metadata : Bytes → Bytes → List Bytes → Result Bytes
  find_metadata directory metadata [] = ok metadata
  find_metadata directory metadata (name ∷ names) =
      let candidate = Filepath.join filepath (Filepath.from_slash filepath directory) name in
      let admit_error = admit_root_path filepath files candidate false in
      let passed = find_metadata directory metadata names in
      let found = find_metadata directory candidate names in
      if is admit_error not_exist
      then passed
      else if not (is_nil admit_error)
      then err (workflow_references ∷ admit_error)
      else if not (equal metadata [])
      then err (workflow_references ∷ [])
      else found

  -- `read` behind the choice of a file.
  unfoldable pub read_metadata : Owner World → Bytes → Result (Bytes × Bytes × Owner World)
  read_metadata owner metadata =
      if equal metadata []
      then err (workflow_references ∷ [])
      else elim (Files.open_file files metadata) [
        | err e ↦ err (workflow_references ∷ e)
        | ok file ↦ elim (read_bounded_source_limit file workflow_references max_workflow_bytes) [
          | err e ↦ err e
          | ok source ↦
              if ltb max_local_action_bytes (owner.bytes + length source)
              then err (workflow_references ∷ [])
              else ok (
                source,
                Filepath.to_slash filepath metadata,
                record owner { bytes = owner.bytes + length source },
              )
        ]
      ]

  -- The owner behind a poll of the context.
  unfoldable pub polled : Owner World → Result (Owner World)
  polled owner =
      let (e, world) = context_error owner.world in
      if is_nil e then ok (record owner { world = world }) else err (workflow_references ∷ e)

  -- `read`
  unfoldable pub read : Owner World → Bytes → Result (Bytes × Bytes × Owner World)
  unfolding polled find_metadata read_metadata
  read owner directory = polled owner >>= λ o.
      find_metadata directory [] (codes "action.yml" ∷ codes "action.yaml" ∷ []) >>= λ metadata.
      read_metadata o metadata

  -- The loop over references, by the step for one.
  unfoldable pub each :
      (Owner World → References → WorkflowReference → Result (References × Owner World))
      → Owner World
      → References
      → References
      → Result (References × Owner World)
  each step owner result [] = ok (result, owner)
  each step owner result (reference ∷ references) =
      step owner result reference >>= λ r. each step r.1 r.0 references

  -- The end of `addLocalAction`: the directory has been visited, and is no longer active.
  abbrev pub left : Bytes → References × Owner World → References × Owner World
  left directory r = (
    r.0,
    record (r.1) {
      visited = directory ∷ Owner.visited r.1;
      active = remove directory (Owner.active r.1);
    },
  )

  -- `addLocalAction` behind its guards.
  unfoldable pub begun :
      (Owner World → References → WorkflowReference → Result (References × Owner World))
      → Owner World
      → References
      → Bytes
      → Result (References × Owner World)
  unfolding read each remove
  begun step owner result directory =
      read (record owner { actions = owner.actions + 1; active = directory ∷ owner.active })
        directory
      >>= λ r.
          joined workflow_references (inspect_local_action_references yaml unicode filepath r.0)
          >>= λ references. each step r.2 result (map (located r.1) references) >>= λ after.
              ok (left directory after)

  -- `addLocalAction`, by the step for the references of the action.
  unfoldable pub add_local_action :
      (Owner World → References → WorkflowReference → Result (References × Owner World))
      → Owner World
      → References
      → Bytes
      → Result (References × Owner World)
  unfolding begun contains
  add_local_action step owner result directory =
      if contains owner.active directory
      then err (workflow_references ∷ [])
      else if contains owner.visited directory
      then ok (result, owner)
      else if owner.actions == max_local_actions
      then err (workflow_references ∷ [])
      else begun step owner result directory

  -- `add` behind its limit. `slices.BinarySearch` finds a member of a sorted list.
  unfoldable pub add_reference :
      (Owner World → References → WorkflowReference → Result (References × Owner World))
      → Owner World
      → References
      → WorkflowReference
      → Result (References × Owner World)
  unfolding add_local_action
  add_reference step owner result reference =
      elim (cut_prefix reference.value (codes "./.github/workflows/")) [
        | some local ↦
            if contains workflows (codes ".github/workflows/" ++ local)
            then ok (result, owner)
            else err (workflow_references ∷ [])
        | none ↦ elim (local_action_directory unicode filepath reference.value) [
          | none ↦ ok (result ++ reference ∷ [], owner)
          | some directory ↦ add_local_action step owner result directory
        ]
      ]

  -- `add`
  unfoldable pub add :
      ℕ → Owner World → References → WorkflowReference → Result (References × Owner World)
  unfolding add_reference polled
  add zero owner result reference = err (workflow_references ∷ [])
  add (suc fuel) owner result reference = polled owner >>= λ o.
      if o.references == max_workflow_references
      then err (workflow_references ∷ [])
      else add_reference (add fuel) (record o { references = o.references + 1 }) result reference

  -- `expand`
  unfoldable pub expand_references : Owner World → References → Result (References × Owner World)
  unfolding add each
  expand_references owner references = each (add walk_fuel) owner [] references
