-- ===== src/Workflow/Inspect/Source.antt =====
-- goverify/workflow.go: the decoding of a source, and `InspectWorkflowReferences`.
use verify.Prelude.{Bool, [], all, if◌then◌else◌, length, ltb, none, not, some, ◌==◌, ◌||◌, ◌∷◌}
use verify.Text.{Bytes, cut_suffix, split_byte}
use verify.Text.Utf8.{Unicode, valid_string}
use verify.Errors.{Error, Result, end_of_file, err, is, ok, workflow_references, ◌>>=◌}
use verify.Workflow.{max_workflow_bytes, max_workflow_line_bytes, max_workflow_nodes}
use verify.Workflow.Paths.{Filepath}
use verify.Workflow.Tree.{
  Node, child, count, document_node, is_kind, no_nodes, node, valid_workflow_tree,
  workflow_uses_aliases,
}
use verify.Workflow.Aliases.{Targets, expand_workflow_aliases}
use verify.Workflow.Inspect.{References, workflow_references_in}
use verify.Workflow.Inspect.Order.{sort}

-- The YAML decoder on a source: the document or the error of the first `Decode`, the error of the
-- second one, and the nodes of the document by their addresses.
pub record Yaml : Type 0 where
  pub first : Bytes → Result Node
  pub second : Bytes → Error
  pub targets : Bytes → Targets

-- `bytes.TrimSuffix(line, []byte{'\r'})`
unfoldable pub trim_return : Bytes → Bytes
trim_return line = elim (cut_suffix line (b'\r' ∷ [])) [ none ↦ line | some rest ↦ rest ]

-- `validWorkflowLines`
unfoldable pub valid_workflow_lines : Bytes → Bool
unfolding trim_return
valid_workflow_lines source =
    all (λ line. not (ltb max_workflow_line_bytes (length (trim_return line))))
      (split_byte source b'\n')

-- `document.Content[0]` of an expanded document, whose content is one node.
abbrev pub first_child : Node → Result Node
first_child (node h no_nodes) = err (workflow_references ∷ [])
first_child (node h (child n ns)) = ok n

-- `decodeWorkflow` behind the first `Decode`.
unfoldable pub decode_document : Error → Targets → Node → Result Node
decode_document second targets (node h content) =
    if not (is_kind h.kind document_node) || not (count content == 1)
    then err (workflow_references ∷ [])
    else if not (is second end_of_file)
    then err (workflow_references ∷ second)
    else if not (valid_workflow_tree (node h content))
    then err (workflow_references ∷ [])
    else if not (workflow_uses_aliases (node h content))
    then first_child (node h content)
    else (expand_workflow_aliases targets (node h content) max_workflow_nodes >>= first_child)

-- `decodeWorkflow`
unfoldable pub decode_workflow : Yaml → Bytes → Result Node
unfolding decode_document
decode_workflow y source = elim (Yaml.first y source) [
  | err e ↦ err (workflow_references ∷ e)
  | ok document ↦ decode_document (Yaml.second y source) (Yaml.targets y source) document
]

-- `InspectWorkflowReferences`
unfoldable pub inspect_workflow_references : Yaml → Unicode → Filepath → Bytes → Result References
unfolding decode_workflow valid_workflow_lines
inspect_workflow_references y u f source =
    if ltb max_workflow_bytes (length source)
      || not (valid_string source)
      || not (valid_workflow_lines source)
    then err (workflow_references ∷ [])
    else (decode_workflow y source >>= λ root.
        workflow_references_in u f root >>= λ references. ok (sort references))
