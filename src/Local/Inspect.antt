-- ===== src/Local/Inspect.antt =====
-- goverify/local_action.go: the references in the metadata of a local action.
use verify.Prelude.{
  Bool, Bool-cases, Option-cases, [], arith, if◌then◌else◌, inl, inr, is_some, length, ltb, none,
  not, some, subst, ◌&&◌, ◌||◌, ◌∷◌, ◌≡◌,
}
use verify.Text.{Bytes, codes, equal, has_prefix}
use verify.Text.Utf8.{Unicode, valid_string}
use verify.Errors.{
  >>=-eq-ok, Result, err, if_false-ok, ok, ok-injective, workflow_references, ◌>>=◌,
}
use verify.Workflow.{max_workflow_bytes, workflow_action}
use verify.Workflow.Paths.{Filepath}
use verify.Workflow.Tree.{Head, Node, head, is_kind, scalar_node, workflow_field}
use verify.Workflow.Inspect.{
  References, append_step_references, append_workflow_reference, is_mapping,
}
use verify.Workflow.Inspect.Source.{Yaml, decode_workflow, valid_workflow_lines}
use verify.Workflow.Inspect.Governed.{IsBounded, append-IsBounded}
use verify.Workflow.Inspect.Jobs.{steps-IsBounded}

-- A scalar with a string that is not empty.
unfoldable pub has_text : Node → Bool
unfolding is_kind
has_text n =
    is_kind (Head.kind (head n)) scalar_node
    && equal (Head.tag (head n)) (codes "!!str")
    && not (equal (Head.value (head n)) [])

-- `localActionRuns`
unfoldable pub local_action_runs : Node → Result (Node × Bytes)
unfolding has_text
local_action_runs root = elim (workflow_field root (codes "runs")) [
  | none ↦ err (workflow_references ∷ [])
  | some runs ↦
      if not (is_mapping runs)
      then err (workflow_references ∷ [])
      else elim (workflow_field runs (codes "using")) [
        | none ↦ err (workflow_references ∷ [])
        | some using ↦
            if not (has_text using)
            then err (workflow_references ∷ [])
            else ok (runs, Head.value (head using))
      ]
]

-- The case "docker" of `localActionRunReferences`.
unfoldable pub docker_references : Unicode → Filepath → Node → Result References
docker_references u f runs = elim (workflow_field runs (codes "image")) [
  | none ↦ err (workflow_references ∷ [])
  | some picture ↦
      if not (has_text picture)
      then err (workflow_references ∷ [])
      else if has_prefix (Head.value (head picture)) (codes "docker://")
      then append_workflow_reference u f [] workflow_action picture
      else ok []
]

-- `localActionRunReferences`
unfoldable pub local_action_run_references : Unicode → Filepath → Node → Bytes → Result References
unfolding docker_references
local_action_run_references u f runs using =
    if equal using (codes "composite")
    then (if not (is_some (workflow_field runs (codes "steps")))
        then err (workflow_references ∷ [])
        else append_step_references u f [] runs)
    else if equal using (codes "docker")
    then docker_references u f runs
    else ok []

-- `inspectLocalActionReferences` behind the decoding.
unfoldable pub inspect_decoded : Unicode → Filepath → Result Node → Result References
unfolding local_action_runs local_action_run_references
inspect_decoded u f (err e) = err (workflow_references ∷ e)
inspect_decoded u f (ok root) =
    if not (is_mapping root)
    then err (workflow_references ∷ [])
    else (local_action_runs root >>= λ r. local_action_run_references u f r.0 r.1)

-- `inspectLocalActionReferences`
unfoldable pub inspect_local_action_references :
    Yaml → Unicode → Filepath → Bytes → Result References
unfolding inspect_decoded
inspect_local_action_references y u f source =
    if ltb max_workflow_bytes (length source)
      || not (valid_string source)
      || not (valid_workflow_lines source)
    then err (workflow_references ∷ [])
    else inspect_decoded u f (decode_workflow y source)

nothing-IsBounded :
    (u : Unicode) (f : Filepath) {after : References} → ok [] ≡ ok after → IsBounded u f after
nothing-IsBounded u f {after} e = subst (IsBounded u f) (ok-injective e) (tt, ground arith)

docker_references-IsBounded :
    (u : Unicode) (f : Filepath) (runs : Node) {after : References}
    → docker_references u f runs ≡ ok after
    → IsBounded u f after
unfolding docker_references
docker_references-IsBounded u f runs {after} e =
    elim (Option-cases (workflow_field runs (codes "image"))) [
      | inl missing ↦ absurd (ground arith)
      | inr (picture, found) ↦
          elim (Bool-cases (has_prefix (Head.value (head picture)) (codes "docker://"))) [
            | inl docker ↦
                append-IsBounded u f [] workflow_action picture {after = after} (tt, ground arith)
                  (ground arith)
            | inr file ↦ nothing-IsBounded u f {after = after} (ground arith)
          ]
    ]

local_action_run_references-IsBounded :
    (u : Unicode) (f : Filepath) (runs : Node) (using : Bytes) {after : References}
    → local_action_run_references u f runs using ≡ ok after
    → IsBounded u f after
unfolding local_action_run_references
local_action_run_references-IsBounded u f runs using {after} e =
    elim (Bool-cases (equal using (codes "composite"))) [
      | inl composite ↦
          steps-IsBounded u f [] runs {after = after} (tt, ground arith) (ground arith)
      | inr plain ↦ elim (Bool-cases (equal using (codes "docker"))) [
        | inl docker ↦ docker_references-IsBounded u f runs {after = after} (ground arith)
        | inr script ↦ nothing-IsBounded u f {after = after} (ground arith)
      ]
    ]

inspect_decoded-IsBounded :
    (u : Unicode) (f : Filepath) (decoded : Result Node) {after : References}
    → inspect_decoded u f decoded ≡ ok after
    → IsBounded u f after
unfolding inspect_decoded
inspect_decoded-IsBounded u f (err c) e = absurd (ground arith)
inspect_decoded-IsBounded u f (ok root) {after} e =
    let (r, runs, e1) =
      >>=-eq-ok (local_action_runs root) (λ r. local_action_run_references u f r.0 r.1)
        {last = after} (if_false-ok (not (is_mapping root)) (workflow_references ∷ []) e) in
    local_action_run_references-IsBounded u f r.0 r.1 e1

pub inspect_local_action_references-IsBounded :
    (y : Yaml) (u : Unicode) (f : Filepath) (source : Bytes) {after : References}
    → inspect_local_action_references y u f source ≡ ok after
    → IsBounded u f after
unfolding inspect_local_action_references
inspect_local_action_references-IsBounded y u f source e =
    inspect_decoded-IsBounded u f (decode_workflow y source) (
      if_false-ok
        (ltb max_workflow_bytes (length source)
          || not (valid_string source)
          || not (valid_workflow_lines source))
        (workflow_references ∷ []) e)
