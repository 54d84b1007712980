-- ===== src/Workflow/Tree.antt =====
-- goverify/workflow.go: the nodes of a parsed workflow, and the check of the whole tree. The YAML
-- parser is not modelled: a node is what it returns, with its address as `id` and with the address of
-- the node that an alias stands for. The parser puts no nil pointer among the contents of a node.
pub mod Whole
use verify.Prelude.{
  Bool, List, Option, [], false, if◌then◌else◌, is_some, ltb, none, not, some, suc, true, zero, ℕ,
  ◌%◌, ◌&&◌, ◌+◌, ◌==◌, ◌||◌, ◌∷◌,
}
use verify.Text.{Bytes, codes, equal, has_prefix}
use verify.Workflow.{max_workflow_depth, max_workflow_nodes}

-- `yaml.Kind`
pub data NodeKind : Type 0 where
  document_node mapping_node sequence_node scalar_node alias_node other_node : NodeKind

-- What a `yaml.Node` has besides its content.
pub record Head : Type 0 where
  pub id : ℕ
  pub kind : NodeKind
  pub tag : Bytes
  pub value : Bytes
  pub line : ℕ
  pub line_comment : Bytes
  pub alias : Option ℕ

mutual
  pub data Node : Type 0 where
    node : Head → Nodes → Node

  pub data Nodes : Type 0 where
    no_nodes : Nodes
    child : Node → Nodes → Nodes

unfoldable pub kind_number : NodeKind → ℕ
kind_number document_node = 1
kind_number sequence_node = 2
kind_number mapping_node = 4
kind_number scalar_node = 8
kind_number alias_node = 16
kind_number other_node = 0

unfoldable pub is_kind : NodeKind → NodeKind → Bool
unfolding kind_number
is_kind kind other = kind_number kind == kind_number other

abbrev pub head : Node → Head
head (node h content) = h

abbrev pub contents : Node → Nodes
contents (node h content) = content

-- `len(node.Content)`
unfoldable pub count : Nodes → ℕ
count no_nodes = 0
count (child n ns) = suc (count ns)

-- `validWorkflowAlias`
unfoldable pub valid_workflow_alias : Head → Bool
unfolding is_kind
valid_workflow_alias h = is_kind h.kind alias_node || not (is_some h.alias)

-- The switch of `validWorkflowNode`.
pub valid_of_kind : NodeKind → Head → Nodes → Bool
unfolding count
valid_of_kind document_node h content = equal h.tag [] && count content == 1
valid_of_kind mapping_node h content = equal h.tag (codes "!!map") && count content % 2 == 0
valid_of_kind sequence_node h content = equal h.tag (codes "!!seq")
valid_of_kind scalar_node h content = has_prefix h.tag (codes "!!")
valid_of_kind alias_node h content = is_some h.alias && count content == 0
valid_of_kind other_node h content = false

-- `validWorkflowNode`
unfoldable pub valid_workflow_node : Node → Bool
unfolding valid_workflow_alias valid_of_kind
valid_workflow_node (node h content) =
    if not (valid_workflow_alias h) then false else valid_of_kind h.kind h content

unfoldable pub contains : List Bytes → Bytes → Bool
contains [] key = false
contains (k ∷ keys) key = equal k key || contains keys key

-- The loop of `uniqueWorkflowKeys`, over the keys at the even places.
pub unique_from : List Bytes → Nodes → Bool
unfolding contains is_kind
unique_from keys no_nodes = true
unique_from keys (child (node h c) no_nodes) = not (
    not (is_kind h.kind scalar_node)
    || not (equal h.tag (codes "!!str"))
    || equal h.value (codes "<<")
    || contains keys h.value)
unique_from keys (child (node h c) (child value rest)) =
    let behind = unique_from (h.value ∷ keys) rest in
    if not (is_kind h.kind scalar_node)
      || not (equal h.tag (codes "!!str"))
      || equal h.value (codes "<<")
      || contains keys h.value
    then false
    else behind

-- `uniqueWorkflowKeys`
unfoldable pub unique_workflow_keys : Node → Bool
unfolding unique_from
unique_workflow_keys (node h content) = unique_from [] content

-- The children on top of the stack, the last one first.
unfoldable pub push : Nodes → ℕ → List (Node × ℕ) → List (Node × ℕ)
push no_nodes depth pending = pending
push (child n ns) depth pending = push ns depth ((n, depth) ∷ pending)

-- Whether the loop goes on behind a node.
unfoldable pub admits : Node → ℕ → Bool
unfolding valid_workflow_node unique_workflow_keys is_kind
admits (node h content) depth =
    not (ltb max_workflow_depth depth || not (valid_workflow_node (node h content)))
    && (not (is_kind h.kind mapping_node) || unique_workflow_keys (node h content))

-- The loop of `validWorkflowTree`, with the number of nodes that are still allowed in place of those
-- seen, and the top of the stack first.
unfoldable pub tree_from : ℕ → List (Node × ℕ) → Bool
unfolding push admits
tree_from allowed [] = true
tree_from zero (current ∷ pending) = false
tree_from (suc allowed) ((node h content, depth) ∷ pending) =
    let rest = tree_from allowed (push content (depth + 1) pending) in
    if admits (node h content) depth then rest else false

-- `validWorkflowTree`
unfoldable pub valid_workflow_tree : Node → Bool
unfolding tree_from
valid_workflow_tree root = tree_from max_workflow_nodes ((root, 0) ∷ [])

-- `workflowUsesAliases`
unfoldable mutual
  unfolding is_kind

  pub workflow_uses_aliases : Node → Bool
  workflow_uses_aliases (node h content) =
      let inside = any_uses_aliases content in if is_kind h.kind alias_node then true else inside

  pub any_uses_aliases : Nodes → Bool
  any_uses_aliases no_nodes = false
  any_uses_aliases (child n ns) = workflow_uses_aliases n || any_uses_aliases ns

-- The loop of `workflowField`, over the keys at the even places.
pub field_from : Bytes → Nodes → Option Node
field_from name no_nodes = none
field_from name (child key no_nodes) = none
field_from name (child (node h c) (child value rest)) =
    let behind = field_from name rest in if equal h.value name then some value else behind

-- `workflowField`
unfoldable pub workflow_field : Node → Bytes → Option Node
unfolding is_kind field_from
workflow_field (node h content) name =
    if not (is_kind h.kind mapping_node) then none else field_from name content
