-- ===== src/Workflow/Aliases.antt =====
-- goverify/workflow.go: the expansion of aliases. The addresses on the way to a node are an argument,
-- as `expand` takes each out again when it returns. It runs on fuel, one for each call inside another.
pub mod Expanded
pub mod Fuel
use verify.Prelude.{
  Bool, List, Option, [], false, if◌then◌else◌, ltb, none, some, suc, zero, ℕ, ◌*◌, ◌+◌, ◌==◌, ◌||◌,
  ◌∷◌,
}
use verify.Errors.{Result, err, ok, workflow_references, ◌>>=◌}
use verify.Workflow.{max_workflow_depth}
use verify.Workflow.Tree.{Head, Node, Nodes, alias_node, child, is_kind, no_nodes, node}

-- The node at an address, `none` for nil.
abbrev pub Targets : Type 0
Targets = ℕ → Option Node

unfoldable pub is_active : ℕ → List ℕ → Bool
is_active id [] = false
is_active id (i ∷ active) = i == id || is_active id active

-- The target of an alias; `none` is nil.
pub target_of : Targets → Option ℕ → Option Node
target_of targets none = none
target_of targets (some id) = targets id

-- What an alias keeps of its own.
abbrev pub at_alias : Head → Node × ℕ → Node × ℕ
at_alias h (node t content, nodes) =
    (node (record t { line = h.line; line_comment = h.line_comment }) content, nodes)

abbrev pub refused {ℓ} : {A : Type ℓ} → Result A
refused = err (workflow_references ∷ [])

-- What an alias expands to, by the expansion of its target.
unfoldable pub expand_target : (Node → Result (Node × ℕ)) → Head → Option Node → Result (Node × ℕ)
expand_target step h none = refused
expand_target step h (some target) = step target >>= λ r. ok (at_alias h r)

-- The loop over the content of a node, by the expansion of one child, with the number of nodes so far,
-- and that number in the result.
unfoldable pub expand_all : (ℕ → Node → Result (Node × ℕ)) → ℕ → Nodes → Result (Nodes × ℕ)
expand_all step nodes no_nodes = ok (no_nodes, nodes)
expand_all step nodes (child n ns) =
    step nodes n >>= λ r. expand_all step r.1 ns >>= λ s. ok (child r.0 s.0, s.1)

-- `expand`
unfoldable pub expand : Targets → ℕ → ℕ → List ℕ → ℕ → ℕ → Node → Result (Node × ℕ)
unfolding expand_target expand_all is_active target_of is_kind
expand targets maximum zero active depth nodes n = refused
expand targets maximum (suc fuel) active depth nodes (node h content) =
    let aliased =
      expand_target (expand targets maximum fuel (h.id ∷ active) depth nodes) h
        (target_of targets h.alias) in
    let inside =
      expand_all (expand targets maximum fuel (h.id ∷ active) (depth + 1)) (nodes + 1) content in
    if ltb max_workflow_depth depth || is_active h.id active
    then refused
    else if is_kind h.kind alias_node
    then aliased
    else if maximum == 0 || ltb maximum (nodes + 1)
    then refused
    else (inside >>= λ r. ok (node (record h { alias = none }) r.0, r.1))

-- Enough for a path of nodes and of aliases between them.
abbrev pub expansion_fuel : ℕ
expansion_fuel = 2 * max_workflow_depth + 4

-- `expandWorkflowAliases`
unfoldable pub expand_workflow_aliases : Targets → Node → ℕ → Result Node
unfolding expand
expand_workflow_aliases targets root maximum =
    expand targets maximum expansion_fuel [] 0 0 root >>= λ r. ok r.0
