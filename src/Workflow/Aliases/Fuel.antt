-- ===== src/Workflow/Aliases/Fuel.antt =====
-- goverify/workflow.go: `expand` ends by itself. A call goes one level deeper, or from an alias to its
-- target, which is no alias.
use verify.Prelude.{
  Bool, List, Option, [], arith, false, if◌then◌else◌, inl, inr, ltb, none, refl, some, suc, sym,
  true, zero, ℕ, ◌*◌, ◌+◌, ◌-◌, ◌==◌, ◌||◌, ◌∙◌, ◌∷◌, ◌≡◌, ◌≤◌,
}
use verify.Errors.{Result, Result-cases}
use verify.Workflow.{max_workflow_depth}
use verify.Workflow.Tree.{Head, Node, Nodes, alias_node, child, head, is_kind, no_nodes, node}
use verify.Workflow.Aliases.{
  Targets, expand, expand_all, expand_target, expansion_fuel, is_active, target_of, refused,
}

-- Every alias stands for a node that is no alias, as YAML has it.
abbrev pub IsResolved : Targets → Type 0
IsResolved targets =
    (id : ℕ) (target : Node)
    → targets id ≡ some target
    → is_kind (Head.kind (head target)) alias_node ≡ false

-- The calls inside one another from a node on, at most.
abbrev needed : ℕ → Node → ℕ
needed depth n = 2 * (101 - depth) + (if is_kind (Head.kind (head n)) alias_node then 2 else 1)

expand_all-cong :
    (step other_step : ℕ → Node → Result (Node × ℕ)) (nodes : ℕ) (content : Nodes)
    → ((m : ℕ) (n : Node) → step m n ≡ other_step m n)
    → expand_all step nodes content ≡ expand_all other_step nodes content
unfolding expand_all
expand_all-cong step other_step nodes no_nodes k = refl
expand_all-cong step other_step nodes (child n ns) k =
    rw (k nodes n) (elim (Result-cases (other_step nodes n)) [
      | inl (r, e) ↦ rw e (rw (expand_all-cong step other_step r.1 ns k) refl)
      | inr (c, e) ↦ rw e refl
    ])

expand_target-cong :
    (step other_step : Node → Result (Node × ℕ)) (h : Head) (o : Option Node)
    → ((n : Node) → o ≡ some n → step n ≡ other_step n)
    → expand_target step h o ≡ expand_target other_step h o
unfolding expand_target
expand_target-cong step other_step h none k = refl
expand_target-cong step other_step h (some n) k = rw (k n refl) refl

-- The branches of `expand`, each equal where it is taken.
branches :
    {A : Type 0} (deep aliased full : Bool) (stop : A) {a a' b b' : A}
    → ((deep ≡ false) → (aliased ≡ true) → a ≡ a')
    → ((deep ≡ false) → (aliased ≡ false) → b ≡ b')
    → (if deep then stop else if aliased then a else if full then stop else b)
      ≡ (if deep then stop else if aliased then a' else if full then stop else b')
branches true aliased full stop k j = refl
branches false true full stop k j = k refl refl
branches false false true stop k j = refl
branches false false false stop k j = j refl refl

alias_target : (depth fuel : ℕ) → 2 * (101 - depth) + 2 ≤ suc fuel → 2 * (101 - depth) + 1 ≤ fuel
alias_target depth fuel h = omega arith

deeper :
    (depth fuel : ℕ) (alias active : Bool)
    → (ltb max_workflow_depth depth || active) ≡ false
    → 2 * (101 - depth) + 1 ≤ suc fuel
    → 2 * (101 - (depth + 1)) + (if alias then 2 else 1) ≤ fuel
deeper depth fuel true active h k = ground arith
deeper depth fuel false active h k = ground arith

root_needed : (fuel : ℕ) (alias : Bool) → 204 ≤ fuel → 2 * 101 + (if alias then 2 else 1) ≤ fuel
root_needed fuel true h = omega arith
root_needed fuel false h = omega arith

target_of-plain :
    (targets : Targets) (o : Option ℕ) (n : Node)
    → IsResolved targets
    → target_of targets o ≡ some n
    → is_kind (Head.kind (head n)) alias_node ≡ false
unfolding target_of
target_of-plain targets none n k e = absurd (ground arith)
target_of-plain targets (some id) n k e = k id n e

expand-stable :
    (targets : Targets) (maximum fuel : ℕ) (active : List ℕ) (depth nodes : ℕ) (n : Node)
    → IsResolved targets
    → needed depth n ≤ fuel
    → expand targets maximum fuel active depth nodes n
      ≡ expand targets maximum (suc fuel) active depth nodes n
unfolding expand
expand-stable targets maximum zero active depth nodes n k le = absurd (ground arith)
expand-stable targets maximum (suc fuel) active depth nodes (node h content) k le =
    branches (ltb max_workflow_depth depth || is_active h.id active) (is_kind h.kind alias_node)
      (maximum == 0 || ltb maximum (nodes + 1)) refused
      (λ shallow alias.
        expand_target-cong (expand targets maximum fuel (h.id ∷ active) depth nodes)
          (expand targets maximum (suc fuel) (h.id ∷ active) depth nodes) h
          (target_of targets h.alias)
          (λ n e. expand-stable targets maximum fuel (h.id ∷ active) depth nodes n k (
            rw (target_of-plain targets h.alias n k e) (alias_target depth fuel (rw alias at le)))))
      (λ shallow plain.
        rw
          (expand_all-cong (expand targets maximum fuel (h.id ∷ active) (depth + 1))
            (expand targets maximum (suc fuel) (h.id ∷ active) (depth + 1)) (nodes + 1) content
            (λ m n.
              expand-stable targets maximum fuel (h.id ∷ active) (depth + 1) m n k
                (deeper depth fuel _ (is_active h.id active) shallow (rw plain at le))))
          refl)

-- The fuel of `expandWorkflowAliases` is enough: with more of it, `expand` has the same result, whatever
-- the tree and whatever cycles its aliases make.
pub expand-enough :
    (targets : Targets) (maximum more : ℕ) (root : Node)
    → IsResolved targets
    → expand targets maximum (more + expansion_fuel) [] 0 0 root
      ≡ expand targets maximum expansion_fuel [] 0 0 root
expand-enough targets maximum zero root k = refl
expand-enough targets maximum (suc more) root k =
    let e : suc more + expansion_fuel ≡ suc (more + expansion_fuel) = omega arith in
    rw e (
      sym (
        expand-stable targets maximum (more + expansion_fuel) [] 0 0 root k
          (root_needed (more + expansion_fuel) _ (omega arith)))
      ∙ expand-enough targets maximum more root k)
