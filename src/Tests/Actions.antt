-- ===== src/Tests/Actions.antt =====
-- Tests of goverify/workflow_currency.go, goverify/local_action.go and cmd/secverify/execution.go.
use verify.Prelude.{
  All, List, [], arith, false, inl, none, refl, some, true, ℕ, ◌++◌, ◌+◌, ◌↔◌, ◌∷◌, ◌≡◌,
}
use verify.Errors.{end_of_file, ok, is}
use verify.Text.{Bytes, codes, equal, cut_byte, cut_prefix, cut_suffix, has_prefix, split_byte}
use verify.Workflow.{WorkflowReference}
use verify.Workflow.Paths.{
  local_action_directory, valid_fuzz_text, valid_relative_directory, valid_workflow_path_components,
}
use verify.Workflow.References.Pinned.{local_action}
use verify.Workflow.Tree.{
  Node, child, document_node, no_nodes, sequence_node, count, is_kind, valid_workflow_tree,
  workflow_field, workflow_uses_aliases,
}
use verify.Workflow.Inspect.{References, workflow_references_in, append_step_references}
use verify.Workflow.Inspect.Governed.{IsGoverned}
use verify.Currency.Version.{
  ActionVersion, compare_action_version, is_positive, is_zero, parse_action_version,
  valid_action_version_component, compare_bytes,
}
use verify.Currency.Version.Parse.{IsComponents, join, parse_action_version_iff}
use verify.Currency.Version.Order.{IsNumeric, compare_action_version-numbers, newer, same_numbers}
use verify.Currency.Tags.{
  ActionTag, Tags, parse_action_tags, select_latest_action_tag, action_tag_name, choose, insert_tag,
}
use verify.Currency.Tags.Rank.{IsNamed}
use verify.Currency.Tags.Latest.{IsLatest, select_latest_action_tag-IsLatest}
use verify.Currency.Reference.{
  IsCurrent, verify_action_reference, verify_action_reference-IsCurrent,
}
use verify.Local.Inspect.{inspect_local_action_references}
use verify.Workflow.Inspect.Order.{compare_references, insert, sort}
use verify.Local.{Owner, new_local_action_owner}
use verify.Local.Walk.{Setting, add, each, expand_references, walk_fuel}
use verify.Local.Sound.{IsSound, IsStep}
use verify.Local.Steps.{expand_references-IsStep}
use verify.Local.Fuel.{expand_references-enough}
use verify.Local.Verify.{Dependencies, dependencies_from, add_workflow_dependencies}
use verify.Local.Filed.{IsFiled, dependencies_from-IsFiled}
use verify.Tests.{ascii}
use verify.Tests.Samples.{checkout, entry, inner, mapping, posix, scalar}
use verify.Tests.Workflows.{at_line, files, yaml}
use verify.Text.Utf8.{valid_string}
use verify.Source.{read_bounded_source_limit}
use verify.Workflow.References.{
  immutable_workflow_action, workflow_action_revision, immutable_remote_action,
  valid_workflow_repository, workflow_action_repository,
}
use verify.Workflow.Aliases.{expand_workflow_aliases}
use verify.Workflow.Inspect.Source.{
  decode_workflow, inspect_workflow_references, valid_workflow_lines,
}
use verify.Workflow.Admission.{admit_root_path}

parse_action_version_iff_example :
    (parse_action_version (codes "v1.20")
      ≡ some (record { value = codes "v1.20"; components = codes "1" ∷ codes "20" ∷ [] }))
    ↔ ((codes "v1.20" ≡ codes "v1.20")
        × (codes "v1.20" ≡ b'v' ∷ join (codes "1" ∷ codes "20" ∷ []))
        × IsComponents 0 (codes "1" ∷ codes "20" ∷ []))
parse_action_version_iff_example =
    parse_action_version_iff (codes "v1.20")
      (record { value = codes "v1.20"; components = codes "1" ∷ codes "20" ∷ [] })

abbrev version : Bytes → List Bytes → ActionVersion
version value components = record { value = value; components = components }

abbrev one : ActionVersion
one = version (codes "v1") (codes "1" ∷ [])

abbrev two : ActionVersion
two = version (codes "v1.2") (codes "1" ∷ codes "2" ∷ [])

one-IsNumeric : IsNumeric one
unfolding valid_action_version_component
one-IsNumeric = (refl, tt)

two-IsNumeric : IsNumeric two
unfolding valid_action_version_component
two-IsNumeric = (refl, (refl, tt))

compare_action_version-numbers_example :
    (is_positive (compare_action_version two one) ≡ newer two one)
    × (is_zero (compare_action_version two one) ≡ same_numbers two one)
compare_action_version-numbers_example =
    compare_action_version-numbers two one two-IsNumeric one-IsNumeric

abbrev commit : Bytes
commit = codes "0123456789abcdef0123456789abcdef01234567"

abbrev tag_at : ActionVersion → ActionTag
tag_at v = record { name = []; version = v; commit = commit; base = true; peeled = false }

abbrev tags : Tags
tags = (codes "v1", tag_at one) ∷ (codes "v1.2", tag_at two) ∷ []

tags-IsNamed : All IsNamed tags
unfolding equal
tags-IsNamed = ((refl, one-IsNumeric), ((refl, two-IsNumeric), tt))

select_latest_action_tag-IsLatest_example : IsLatest none tags (select_latest_action_tag none tags)
select_latest_action_tag-IsLatest_example = select_latest_action_tag-IsLatest none tags tags-IsNamed

-- What git lists of a repository.
abbrev listing : Bytes
listing = commit ++ codes "\trefs/tags/v1\n" ++ commit ++ codes "\trefs/tags/v1.2\n"

abbrev pinned : WorkflowReference
pinned = record (at_line 4) { version = codes "v1.2" }

verify_action_reference-IsCurrent_example : IsCurrent ascii pinned tags
unfolding parse_action_tags verify_action_reference split_byte cut_byte action_tag_name cut_prefix
    cut_suffix parse_action_version insert_tag workflow_action_revision compare_action_version
    select_latest_action_tag choose
verify_action_reference-IsCurrent_example =
    verify_action_reference-IsCurrent ascii listing pinned refl refl

-- A workflow and an action of the repository, below the same decoder.
abbrev action : Node
action = mapping 2 (
    entry 3 (codes "runs")
      (mapping 4 (
        entry 5 (codes "using") (scalar 6 1 (codes "composite")) (
          entry 7 (codes "steps")
            (inner 8 sequence_node (codes "!!seq") (
              child (mapping 9 (entry 10 (codes "uses") (scalar 11 5 checkout) no_nodes)) no_nodes))
            no_nodes)))
      no_nodes)

abbrev setting : Setting
setting = record {
  World = ℕ;
  context_error = λ n. ([], n + 1);
  files = files;
  yaml = record {
    first = λ source. ok (inner 1 document_node [] (child action no_nodes));
    second = λ source. end_of_file ∷ [];
    targets = λ source id. none;
  };
  unicode = ascii;
  filepath = posix;
  workflows = codes ".github/workflows/test.yml" ∷ [];
}

abbrev start : Owner ℕ
start = new_local_action_owner 0

start-IsSound : IsSound start
start-IsSound = record {
  actions_limit = omega arith;
  bytes_limit = omega arith;
  references_limit = omega arith;
  distinct = tt;
}

-- A reference to the local action.
abbrev local_reference : WorkflowReference
local_reference = record (at_line 3) { value = codes "./act" }

local_reference-IsGoverned : IsGoverned ascii posix local_reference
unfolding local_action_directory cut_prefix valid_fuzz_text equal valid_string
    valid_workflow_path_components valid_relative_directory has_prefix
local_reference-IsGoverned = record {
  fixed = local_action (codes "act") refl;
  versioned = inl (refl, refl, refl);
}

abbrev found : References × Owner ℕ
found = (
  record (at_line 5) { path = codes "act/action.yml" } ∷ [],
  record {
    world = 3;
    visited = codes "act" ∷ [];
    active = [];
    actions = 1;
    bytes = 5;
    references = 2;
  },
)

expand_references-IsStep_example : IsStep (Setting.files setting) ascii posix start found
unfolding expand_references cut_prefix local_action_directory valid_fuzz_text equal valid_string
    valid_workflow_path_components valid_relative_directory has_prefix is admit_root_path split_byte
    read_bounded_source_limit inspect_local_action_references valid_workflow_lines cut_suffix
    decode_workflow count valid_workflow_tree workflow_uses_aliases workflow_field
    append_step_references immutable_workflow_action immutable_remote_action cut_byte
    valid_workflow_repository workflow_action_repository
expand_references-IsStep_example =
    expand_references-IsStep setting start (local_reference ∷ []) start-IsSound
      (local_reference-IsGoverned, tt) refl

expand_references-enough_example :
    each setting (add setting (7 + walk_fuel)) start [] (local_reference ∷ [])
    ≡ expand_references setting start (local_reference ∷ [])
expand_references-enough_example =
    expand_references-enough setting 7 start (local_reference ∷ []) start-IsSound
      (local_reference-IsGoverned, tt)

-- The same files, with a decoder that finds a workflow.
abbrev workflow_setting : Setting
workflow_setting = record setting { yaml = yaml }

abbrev filed : Dependencies
filed =
    (
      codes "actions/checkout",
      record (at_line 4) { path = codes ".github/workflows/test.yml" }
          ∷ record (at_line 4) { path = codes ".github/workflows/test.yml" }
          ∷ [],
    )
    ∷ []

dependencies_from-IsFiled_example : All (IsFiled ascii posix) filed
unfolding dependencies_from admit_root_path equal split_byte has_prefix read_bounded_source_limit is
    inspect_workflow_references valid_string cut_suffix is_kind count valid_workflow_tree
    workflow_uses_aliases expand_workflow_aliases workflow_references_in workflow_field
    immutable_workflow_action local_action_directory cut_prefix immutable_remote_action cut_byte
    valid_workflow_repository workflow_action_repository expand_references sort insert
    compare_references compare_bytes add_workflow_dependencies
dependencies_from-IsFiled_example =
    dependencies_from-IsFiled workflow_setting start [] (codes ".github/workflows/test.yml" ∷ [])
      start-IsSound tt refl
