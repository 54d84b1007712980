-- ===== src/Workflow/Aliases/Expanded.antt =====
-- goverify/workflow.go: what `expand` returns has no alias, and as many nodes as were counted.
use verify.Prelude.{
  Bool-cases, List, Option, arith, false, inl, inr, ltb, none, refl, some, suc, zero, ℕ, ◌+◌, ◌||◌,
  ◌∷◌, ◌≡◌, ◌≤◌, [], if◌then◌else◌, ◌==◌,
}
use verify.Errors.{>>=-eq-ok, Result, if_false-ok, ok, ◌>>=◌}
use verify.Workflow.{max_workflow_depth}
use verify.Workflow.Tree.{
  Head, Node, Nodes, alias_node, any_uses_aliases, child, count, is_kind, no_nodes, node,
  workflow_uses_aliases,
}
use verify.Workflow.Tree.Whole.{nodes_among, nodes_in}
use verify.Workflow.Aliases.{
  Targets, at_alias, expand, expand_all, expand_target, is_active, target_of,
  expand_workflow_aliases, expansion_fuel, refused,
}

-- A tree without an alias, whose nodes have been counted from `nodes` on, within the limit.
pub record IsExpanded (maximum nodes : ℕ) (r : Node × ℕ) : Type 0 where
  pub without_alias : workflow_uses_aliases r.0 ≡ false
  pub counted : r.1 ≡ nodes + nodes_in r.0
  pub within_limit : r.1 ≤ maximum

record AreExpanded (maximum nodes : ℕ) (r : Nodes × ℕ) : Type 0 where
  without_aliases : any_uses_aliases r.0 ≡ false
  all_counted : r.1 ≡ nodes + nodes_among r.0
  within_limits : r.1 ≤ maximum

expand_all-AreExpanded :
    (maximum : ℕ) (step : ℕ → Node → Result (Node × ℕ)) (nodes : ℕ) (content : Nodes)
    {r : Nodes × ℕ}
    → ((nodes' : ℕ) (n : Node) (s : Node × ℕ) → step nodes' n ≡ ok s → IsExpanded maximum nodes' s)
    → nodes ≤ maximum
    → expand_all step nodes content ≡ ok r
    → AreExpanded maximum nodes r
unfolding expand_all any_uses_aliases nodes_among
expand_all-AreExpanded maximum step nodes no_nodes {r} k le e =
    let same : r ≡ (no_nodes, nodes) = cc in
    rw same (record { without_aliases = refl; all_counted = omega arith; within_limits = le })
expand_all-AreExpanded maximum step nodes (child n ns) {r} k le e =
    let (s, first, e1) =
      >>=-eq-ok (step nodes n) (λ s. expand_all step s.1 ns >>= λ t. ok (child s.0 t.0, t.1))
        {last = r} e in
    let (t, behind, e2) =
      >>=-eq-ok (expand_all step s.1 ns) (λ t. ok (child s.0 t.0, t.1)) {last = r} e1 in
    let x = k nodes n s first in
    let y = expand_all-AreExpanded maximum step s.1 ns k x.within_limit behind in
    let same : r ≡ (child s.0 t.0, t.1) = cc in
    rw same (record {
      without_aliases = ground (arith, x.without_alias, y.without_aliases);
      all_counted = omega (arith, x.counted, y.all_counted);
      within_limits = y.within_limits;
    })

at_alias-IsExpanded :
    (maximum nodes : ℕ) (h : Head) (r : Node × ℕ)
    → IsExpanded maximum nodes r
    → IsExpanded maximum nodes (at_alias h r)
unfolding workflow_uses_aliases nodes_in
at_alias-IsExpanded maximum nodes h (node t content, count) x = record {
  without_alias = x.without_alias;
  counted = x.counted;
  within_limit = x.within_limit;
}

expand_target-IsExpanded :
    (maximum nodes : ℕ) (step : Node → Result (Node × ℕ)) (h : Head) (o : Option Node)
    {r : Node × ℕ}
    → ((n : Node) (s : Node × ℕ) → step n ≡ ok s → IsExpanded maximum nodes s)
    → expand_target step h o ≡ ok r
    → IsExpanded maximum nodes r
unfolding expand_target
expand_target-IsExpanded maximum nodes step h none k e = absurd (ground arith)
expand_target-IsExpanded maximum nodes step h (some target) {r} k e =
    let (s, first, e1) = >>=-eq-ok (step target) (λ s. ok (at_alias h s)) {last = r} e in
    let same : r ≡ at_alias h s = cc in
    rw same (at_alias-IsExpanded maximum nodes h s (k target s first))

-- A node that is no alias, around its expanded content.
node-IsExpanded :
    (maximum nodes : ℕ) (h : Head) (content : Result (Nodes × ℕ)) {r : Node × ℕ}
    → is_kind h.kind alias_node ≡ false
    → ((s : Nodes × ℕ) → content ≡ ok s → AreExpanded maximum (nodes + 1) s)
    → (content >>= λ s. ok (node (record h { alias = none }) s.0, s.1)) ≡ ok r
    → IsExpanded maximum nodes r
unfolding workflow_uses_aliases nodes_in
node-IsExpanded maximum nodes h content {r} plain k e =
    let (s, first, e1) =
      >>=-eq-ok content (λ s. ok (node (record h { alias = none }) s.0, s.1)) {last = r} e in
    let x = k s first in
    let same : r ≡ (node (record h { alias = none }) s.0, s.1) = cc in
    rw same (record {
      without_alias = ground (arith, plain, x.without_aliases);
      counted = omega (arith, x.all_counted);
      within_limit = x.within_limits;
    })

expand-IsExpanded :
    (targets : Targets) (maximum fuel : ℕ) (active : List ℕ) (depth nodes : ℕ) (n : Node)
    {r : Node × ℕ}
    → expand targets maximum fuel active depth nodes n ≡ ok r
    → IsExpanded maximum nodes r
unfolding expand
expand-IsExpanded targets maximum zero active depth nodes n e = absurd (ground arith)
expand-IsExpanded targets maximum (suc fuel) active depth nodes (node h content) {r} e =
    let open_node = if_false-ok (ltb max_workflow_depth depth || is_active h.id active) _ e in
    elim (Bool-cases (is_kind h.kind alias_node)) [
      | inl alias ↦
          expand_target-IsExpanded maximum nodes
            (expand targets maximum fuel (h.id ∷ active) depth nodes) h (target_of targets h.alias)
            (λ n s k. expand-IsExpanded targets maximum fuel (h.id ∷ active) depth nodes n k)
            (rw alias at open_node)
      | inr plain ↦
          let counted_node : (if maximum == 0 || ltb maximum (nodes + 1)
                then refused
                else (expand_all (expand targets maximum fuel (h.id ∷ active) (depth + 1))
                      (nodes + 1) content
                    >>= λ s. ok (node (record h { alias = none }) s.0, s.1)))
              ≡ ok r =
            rw plain at open_node in
          elim (Bool-cases (maximum == 0 || ltb maximum (nodes + 1))) [
            | inl full ↦ absurd (ground arith)
            | inr room ↦
                node-IsExpanded maximum nodes h
                  (expand_all (expand targets maximum fuel (h.id ∷ active) (depth + 1)) (nodes + 1)
                    content)
                  plain
                  (λ s k.
                    expand_all-AreExpanded maximum
                      (expand targets maximum fuel (h.id ∷ active) (depth + 1)) (nodes + 1) content
                      (λ m n t j.
                        expand-IsExpanded targets maximum fuel (h.id ∷ active) (depth + 1) m n j)
                      (ground arith) k)
                  (rw room at counted_node)
          ]
    ]

-- What `expandWorkflowAliases` returns has no alias, and at most the given number of nodes, however
-- the aliases refer to one another.
pub expand_workflow_aliases-expanded :
    (targets : Targets) (root : Node) (maximum : ℕ) {expanded : Node}
    → expand_workflow_aliases targets root maximum ≡ ok expanded
    → (workflow_uses_aliases expanded ≡ false) × (nodes_in expanded ≤ maximum)
unfolding expand_workflow_aliases
expand_workflow_aliases-expanded targets root maximum {expanded} e =
    let (r, whole, e1) =
      >>=-eq-ok (expand targets maximum expansion_fuel [] 0 0 root) (λ r. ok r.0) {last = expanded}
        e in
    let x = expand-IsExpanded targets maximum expansion_fuel [] 0 0 root whole in
    let same : expanded ≡ r.0 = cc in
    rw same (x.without_alias, omega (arith, x.counted, x.within_limit))
