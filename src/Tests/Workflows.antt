-- ===== src/Tests/Workflows.antt =====
-- Tests of goverify/workflow.go.
use verify.Prelude.{
  Bool-cases, Option, [], ap, arith, false, if◌then◌else◌, inl, inr, leb, length, none, not, pos,
  refl, some, subst, take, true, ℕ, ◌&&◌, ◌+◌, ◌==◌, ◌||◌, ◌∷◌, ◌≡◌, ◌≤◌, ◌⊎◌,
}
use verify.Errors.{end_of_file, err, is, not_exist, ok, proper, unexpected_eof, workflow_references}
use verify.Text.{Bytes, codes, cut_byte, cut_prefix, cut_suffix, equal, has_prefix, split_byte}
use verify.Source.{
  BoundedSource, IsRead, read_bounded_source_limit, read_bounded_source_limit-IsRead,
}
use verify.Workflow.{WorkflowReference, max_workflow_nodes, workflow_action}
use verify.Workflow.Paths.{local_action_directory}
use verify.Workflow.References.{
  immutable_remote_action, immutable_workflow_action, valid_workflow_repository,
  workflow_action_repository,
}
use verify.Workflow.Tree.{
  Head, Node, alias_node, child, contents, count, document_node, head, is_kind, mapping_node,
  no_nodes, node, valid_workflow_tree, workflow_field, workflow_uses_aliases,
}
use verify.Workflow.Tree.Whole.{nodes_in, sound_at, valid_workflow_tree_lem}
use verify.Workflow.Aliases.{expand, expand_workflow_aliases, expansion_fuel}
use verify.Workflow.Aliases.Expanded.{expand_workflow_aliases-expanded}
use verify.Workflow.Aliases.Fuel.{IsResolved, expand-enough}
use verify.Workflow.Inspect.Order.{IsSorted, compare_references, insert, sort}
use verify.Workflow.Inspect.Source.{Yaml, inspect_workflow_references}
use verify.Workflow.Inspect.Governed.{IsBounded}
use verify.Workflow.Inspect.Jobs.{inspect_workflow_references-IsGoverned}
use verify.Workflow.Admission.{
  Files, IsPlain, IsPlainEntry, admit_root_path, admit_root_path-IsPlain,
}
use verify.Currency.Version.{compare_bytes}
use verify.Tests.{ascii}
use verify.Text.Utf8.{runes, valid_string}
use verify.Workflow.Inspect.{workflow_references_in}
use verify.Workflow.References.Pinned.{IsImmutable, immutable_workflow_action-IsImmutable}
use verify.Tests.Samples.{checkout, document, entry, inner, job, mapping, posix, targets}

targets-IsResolved : IsResolved targets
unfolding is_kind
targets-IsResolved id target e = elim (Bool-cases (id == 10)) [
  | inl here ↦
      let same : some job ≡ some target = rw here at e in
      let found : job ≡ target =
        ap (λ (o : Option Node). elim o [ none ↦ job | some t ↦ t ]) same in
      subst (λ (t : Node). is_kind (Head.kind (head t)) alias_node ≡ false) found refl
  | inr away ↦ let nothing : none ≡ some target = rw away at e in absurd (ground arith)
]

valid_workflow_tree_lem_example :
    valid_workflow_tree document
    ≡ (leb (nodes_in document) max_workflow_nodes && sound_at 0 document)
valid_workflow_tree_lem_example = valid_workflow_tree_lem document

abbrev expanded : Node
expanded = inner 1 document_node [] (
    child
      (mapping 2 (
        entry 3 (codes "jobs")
          (mapping 4 (
            entry 5 (codes "test") job (
              entry 6 (codes "again")
                (node
                  (record {
                    id = 10;
                    kind = mapping_node;
                    tag = codes "!!map";
                    value = [];
                    line = 9;
                    line_comment = [];
                    alias = none;
                  })
                  (contents job))
                no_nodes)))
          no_nodes))
      no_nodes)

expand_workflow_aliases-expanded_example :
    (workflow_uses_aliases expanded ≡ false) × (nodes_in expanded ≤ 100)
unfolding expand_workflow_aliases
expand_workflow_aliases-expanded_example =
    expand_workflow_aliases-expanded targets document 100 refl

expand-enough_example :
    expand targets 100 (5 + expansion_fuel) [] 0 0 document
    ≡ expand targets 100 expansion_fuel [] 0 0 document
expand-enough_example = expand-enough targets 100 5 document targets-IsResolved

-- A decoder that finds this workflow everywhere.
abbrev pub yaml : Yaml
yaml = record {
  first = λ source. ok document;
  second = λ source. end_of_file ∷ [];
  targets = λ source. targets;
}

abbrev pub at_line : ℕ → WorkflowReference
at_line line = record {
  kind = workflow_action;
  value = checkout;
  version = [];
  excluded_version = [];
  exclusion_reason = [];
  path = [];
  line = line;
}

inspect_workflow_references-IsGoverned_example :
    IsSorted (at_line 4 ∷ at_line 4 ∷ []) × IsBounded ascii posix (at_line 4 ∷ at_line 4 ∷ [])
unfolding inspect_workflow_references valid_string split_byte cut_suffix is_kind count is
    valid_workflow_tree has_prefix workflow_uses_aliases expand_workflow_aliases
    workflow_references_in workflow_field immutable_workflow_action local_action_directory
    cut_prefix immutable_remote_action cut_byte compare_bytes runes equal valid_workflow_repository
    workflow_action_repository sort insert compare_references
inspect_workflow_references-IsGoverned_example =
    inspect_workflow_references-IsGoverned yaml ascii posix (codes "jobs:") refl

-- A file with a text.
abbrev pub file : Bytes → BoundedSource
file text = record {
  stat = (some (record { regular = true; size = pos (length text) }), []);
  read_full = λ size. (take size text, unexpected_eof ∷ []);
  close = [];
}

read_bounded_source_limit-IsRead_example : IsRead (file (codes "jobs:")) 8 (codes "jobs:")
unfolding read_bounded_source_limit is
read_bounded_source_limit-IsRead_example =
    read_bounded_source_limit-IsRead (file (codes "jobs:")) workflow_references 8 refl

-- Directories and regular files by their names.
abbrev pub files : Files
files = record {
  lstat = λ path.
      if has_prefix path (codes "act/action.yaml")
      then err (not_exist ∷ [])
      else ok (record {
        symlink = false;
        directory =
            not (has_prefix path (codes "act/"))
            && not (has_prefix path (codes ".github/workflows/"));
        regular = has_prefix path (codes "act/") || has_prefix path (codes ".github/workflows/");
      });
  open_file = λ path. ok (file (codes "jobs:"));
}

files_proper : (path : Bytes) → proper (Files.lstat files path) ≡ true
files_proper path = elim (Bool-cases (has_prefix path (codes "act/action.yaml"))) [
  | inl e ↦ rw e refl
  | inr e ↦ rw e refl
]

admit_root_path-IsPlain_example :
    ((codes "act/action.yml" ≡ codes ".") × IsPlainEntry files (codes ".") true false)
    ⊎ IsPlain posix files false [] (split_byte (codes "act/action.yml") b'/')
unfolding admit_root_path equal split_byte has_prefix
admit_root_path-IsPlain_example =
    admit_root_path-IsPlain posix files (codes "act/action.yml") false files_proper refl

immutable_workflow_action-IsImmutable_example : IsImmutable ascii posix checkout
unfolding immutable_workflow_action has_prefix local_action_directory cut_prefix
    immutable_remote_action cut_byte valid_workflow_repository split_byte equal runes
immutable_workflow_action-IsImmutable_example =
    immutable_workflow_action-IsImmutable ascii posix checkout refl
