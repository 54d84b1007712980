-- ===== src/Workflow/Tree/Whole.antt =====
-- goverify/workflow.go: the loop of `validWorkflowTree` agrees with a check by recursion on the tree.
use verify.Prelude.{
  Bool, List, [], arith, leb, refl, suc, true, zero, ℕ, ◌&&◌, ◌+◌, ◌∷◌, ◌≡◌, ap, false,
  if◌then◌else◌, ◌∙◌,
}
use verify.Workflow.{max_workflow_nodes}
use verify.Workflow.Tree.{
  Node, Nodes, admits, child, no_nodes, node, push, tree_from, valid_workflow_tree, Head,
}

-- The number of nodes of a tree.
unfoldable mutual
  pub nodes_in : Node → ℕ
  nodes_in (node h content) = suc (nodes_among content)

  pub nodes_among : Nodes → ℕ
  nodes_among no_nodes = 0
  nodes_among (child n ns) = nodes_in n + nodes_among ns

-- Every node of a tree is admitted at its depth.
unfoldable mutual
  pub sound_at : ℕ → Node → Bool
  sound_at depth (node h content) = admits (node h content) depth && sound_among (depth + 1) content

  pub sound_among : ℕ → Nodes → Bool
  sound_among depth no_nodes = true
  sound_among depth (child n ns) = sound_at depth n && sound_among depth ns

abbrev nodes_pending : List (Node × ℕ) → ℕ
nodes_pending [] = 0
nodes_pending ((n, depth) ∷ pending) = nodes_in n + nodes_pending pending

abbrev sound_pending : List (Node × ℕ) → Bool
sound_pending [] = true
sound_pending ((n, depth) ∷ pending) = sound_at depth n && sound_pending pending

nodes-push :
    (ns : Nodes) (depth : ℕ) (pending : List (Node × ℕ))
    → nodes_pending (push ns depth pending) ≡ nodes_among ns + nodes_pending pending
unfolding push nodes_among
nodes-push no_nodes depth pending = omega arith
nodes-push (child n ns) depth pending = omega (arith, nodes-push ns depth ((n, depth) ∷ pending))

sound-push :
    (ns : Nodes) (depth : ℕ) (pending : List (Node × ℕ))
    → sound_pending (push ns depth pending) ≡ (sound_among depth ns && sound_pending pending)
unfolding push sound_among
sound-push no_nodes depth pending = refl
sound-push (child n ns) depth pending = ground (arith, sound-push ns depth ((n, depth) ∷ pending))

nodes_in-node : (h : Head) (content : Nodes) → nodes_in (node h content) ≡ suc (nodes_among content)
unfolding nodes_in
nodes_in-node h content = refl

sound_at-node :
    (depth : ℕ) (h : Head) (content : Nodes)
    → sound_at depth (node h content)
      ≡ (admits (node h content) depth && sound_among (depth + 1) content)
unfolding sound_at
sound_at-node depth h content = refl

-- One turn of the loop, on its numbers and tests alone.
turn :
    (admit inside behind rest : Bool) (allowed among pending pushed : ℕ)
    → pushed ≡ among + pending
    → rest ≡ (leb pushed allowed && (inside && behind))
    → (if admit then rest else false)
      ≡ (leb (suc among + pending) (suc allowed) && ((admit && inside) && behind))
turn admit inside behind rest allowed among pending pushed e h = ground arith

tree_from_lem :
    (allowed : ℕ) (pending : List (Node × ℕ))
    → tree_from allowed pending ≡ (leb (nodes_pending pending) allowed && sound_pending pending)
unfolding tree_from
tree_from_lem allowed [] = ground arith
tree_from_lem zero ((node h content, depth) ∷ pending) = rw (nodes_in-node h content) (ground arith)
tree_from_lem (suc allowed) ((node h content, depth) ∷ pending) =
    let pushed = push content (depth + 1) pending in
    rw (nodes_in-node h content, sound_at-node depth h content)
      (turn (admits (node h content) depth) (sound_among (depth + 1) content)
        (sound_pending pending) (tree_from allowed pushed) allowed (nodes_among content)
        (nodes_pending pending) (nodes_pending pushed) (nodes-push content (depth + 1) pending)
        (tree_from_lem allowed pushed
          ∙ ap (λ (b : Bool). leb (nodes_pending pushed) allowed && b)
              (sound-push content (depth + 1) pending)))

one_pending :
    (n allowed : ℕ) (sound : Bool)
    → (leb (n + 0) allowed && (sound && true)) ≡ (leb n allowed && sound)
one_pending n allowed sound = ground arith

-- `validWorkflowTree` admits exactly the trees with at most `MaxWorkflowNodes` nodes, each of which is
-- valid, no deeper than `MaxWorkflowDepth`, and with string keys that differ if it is a mapping.
pub valid_workflow_tree_lem :
    (root : Node)
    → valid_workflow_tree root ≡ (leb (nodes_in root) max_workflow_nodes && sound_at 0 root)
unfolding valid_workflow_tree
valid_workflow_tree_lem root =
    tree_from_lem max_workflow_nodes ((root, 0) ∷ [])
    ∙ one_pending (nodes_in root) max_workflow_nodes (sound_at 0 root)
