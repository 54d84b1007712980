-- ===== src/Local/Fuel.antt =====
-- goverify/local_action.go: the walk ends by itself, as it begins a bounded number of actions.
use verify.Prelude.{
  All, Bool, Option-cases, [], ap, arith, false, if◌then◌else◌, inl, inr, map, refl, subst, suc,
  sym, true, zero, ℕ, ◌+◌, ◌-◌, ◌==◌, ◌∷◌, ◌≡◌, ◌≤◌, ◌∙◌,
}
use verify.Text.{Bytes, codes, cut_prefix}
use verify.Errors.{>>=-cong, Result, err, ok, workflow_references, ◌>>=◌, joined, joined-ok}
use verify.Workflow.Tree.{contains}
use verify.Workflow.{WorkflowReference, max_workflow_references}
use verify.Workflow.Paths.{local_action_directory}
use verify.Workflow.Inspect.{References}
use verify.Workflow.Inspect.Governed.{IsGoverned}
use verify.Local.{Owner, max_local_actions}
use verify.Local.Inspect.{
  inspect_local_action_references, inspect_local_action_references-IsBounded,
}
use verify.Local.Walk.{
  Setting, add, add_local_action, add_reference, begun, each, left, located, polled, read,
  expand_references, walk_fuel,
}
use verify.Local.Sound.{IsRemote, IsSound, located-IsGoverned}
use verify.Local.Bounds.{Keeps, polled-lem, read-IsSound}
use verify.Local.Steps.{entered, entered-IsSound, add-Keeps, taken, taken-IsSound}

module _ (s : Setting) where
  open s use {World, context_error, files, yaml, unicode, filepath, workflows}

  -- Two steps agree on sound owners that have begun a number of actions.
  abbrev Agree :
      ℕ
      → (Owner World → References → WorkflowReference → Result (References × Owner World))
      → (Owner World → References → WorkflowReference → Result (References × Owner World))
      → Type 0
  Agree begun_before step other_step =
      (o : Owner World) (result : References) (reference : WorkflowReference)
      → IsSound o
      → begun_before ≤ o.actions
      → All (IsRemote unicode filepath) result
      → IsGoverned unicode filepath reference
      → step o result reference ≡ other_step o result reference

  each-Agree :
      (n : ℕ)
      (step other_step : Owner World
        → References
        → WorkflowReference
        → Result (References × Owner World))
      (o : Owner World) (result references : References)
      → Keeps s step
      → Agree n step other_step
      → IsSound o
      → n ≤ o.actions
      → All (IsRemote unicode filepath) result
      → All (IsGoverned unicode filepath) references
      → each s step o result references ≡ each s other_step o result references
  unfolding each
  each-Agree n step other_step o result [] k a w le h g = refl
  each-Agree n step other_step o result (reference ∷ references) k a w le h g =
      rw (sym (a o result reference w le h g.0)) (
        >>=-cong (step o result reference) (λ r. each s step r.1 r.0 references)
          (λ r. each s other_step r.1 r.0 references)
          (λ r e.
            let x = k o result reference r w h g.0 e in
            each-Agree n step other_step r.1 r.0 references k a x.sound
              (omega (arith, le, x.growing)) x.remote g.1))

  begun-Agree :
      (step other_step : Owner World
        → References
        → WorkflowReference
        → Result (References × Owner World))
      (o : Owner World) (result : References) (directory : Bytes)
      → Keeps s step
      → Agree (o.actions + 1) step other_step
      → IsSound o
      → (o.actions == max_local_actions) ≡ false
      → All (IsRemote unicode filepath) result
      → begun s step o result directory ≡ begun s other_step o result directory
  unfolding begun
  begun-Agree step other_step o result directory k a w room h =
      let start = record o { actions = o.actions + 1; active = directory ∷ o.active } in
      >>=-cong (read s start directory) _ _ (λ m reading.
        >>=-cong
          (joined workflow_references (inspect_local_action_references yaml unicode filepath m.0)) _
          _
          (λ references inspected.
            let (v, n, same, le, was_read, more) =
              read-IsSound s start directory {r = m}
                (entered-IsSound s o directory o.world o.bytes w room w.bytes_limit) reading in
            let governed = inspect_local_action_references-IsBounded yaml unicode filepath m.0 (
              joined-ok workflow_references
                (inspect_local_action_references yaml unicode filepath m.0) inspected) in
            let inner : each s step m.2 result (map (located m.1) references)
                ≡ each s other_step m.2 result (map (located m.1) references) =
              subst
                (λ z.
                  each s step z result (map (located m.1) references)
                  ≡ each s other_step z result (map (located m.1) references))
                (sym same)
                (each-Agree (o.actions + 1) step other_step (entered s o directory v n) result
                  (map (located m.1) references) k a (entered-IsSound s o directory v n w room le)
                  (omega arith) h
                  (located-IsGoverned unicode filepath m.1 references governed.0)) in
            ap (λ z. z >>= λ after. ok (left s directory after)) inner))

  -- Three guards before a call that is equal where it is reached.
  guarded :
      {A : Type 0} (active seen full : Bool) (stop : A) (same : A) {x y : A}
      → ((full ≡ false) → x ≡ y)
      → (if active then stop else if seen then same else if full then stop else x)
        ≡ (if active then stop else if seen then same else if full then stop else y)
  guarded true seen full stop same k = refl
  guarded false true full stop same k = refl
  guarded false false true stop same k = refl
  guarded false false false stop same k = k refl

  add_reference-Agree :
      (step other_step : Owner World
        → References
        → WorkflowReference
        → Result (References × Owner World))
      (o : Owner World) (result : References) (reference : WorkflowReference)
      → Keeps s step
      → Agree (o.actions + 1) step other_step
      → IsSound o
      → All (IsRemote unicode filepath) result
      → add_reference s step o result reference ≡ add_reference s other_step o result reference
  unfolding add_reference add_local_action cut_prefix
  add_reference-Agree step other_step o result reference k a w h =
      elim (Option-cases (cut_prefix reference.value (codes "./.github/workflows/"))) [
        | inr (local, e) ↦ rw e refl
        | inl e ↦ elim (Option-cases (local_action_directory unicode filepath reference.value)) [
          | inl d ↦ rw (e, d) refl
          | inr (directory, d) ↦
              rw (e, d)
                (guarded (contains o.active directory) (contains o.visited directory)
                  (o.actions == max_local_actions) (err (workflow_references ∷ [])) (ok (result, o))
                  (λ room. begun-Agree step other_step o result directory k a w room h))
        ]
      ]

  add-stable :
      (fuel : ℕ) (o : Owner World) (result : References) (reference : WorkflowReference)
      → IsSound o
      → 255 - o.actions ≤ fuel
      → All (IsRemote unicode filepath) result
      → IsGoverned unicode filepath reference
      → add s fuel o result reference ≡ add s (suc fuel) o result reference
  unfolding add
  add-stable zero o result reference w le h g = absurd (omega (arith, w.actions_limit))
  add-stable (suc fuel) o result reference w le h g = >>=-cong (polled s o) _ _ (λ p polled_here.
      let (v, same) = polled-lem s o polled_here in
      subst
        (λ (z : Owner World).
          (if z.references == max_workflow_references
            then err (workflow_references ∷ [])
            else add_reference s (add s fuel) (record z { references = z.references + 1 }) result
                reference)
          ≡ (if z.references == max_workflow_references
              then err (workflow_references ∷ [])
              else add_reference s (add s (suc fuel)) (record z { references = z.references + 1 })
                  result reference))
        (sym same)
        (guarded false false (o.references == max_workflow_references)
          (err (workflow_references ∷ [])) (err (workflow_references ∷ []))
          (λ room.
            add_reference-Agree (add s fuel) (add s (suc fuel)) (taken s o v) result reference
              (add-Keeps s fuel)
              (λ o' result' reference' w' le' h' g'.
                add-stable fuel o' result' reference' w' (omega (arith, le, le')) h' g')
              (taken-IsSound s o v w room) h)))

  add-enough :
      (more : ℕ) (o : Owner World) (result : References) (reference : WorkflowReference)
      → IsSound o
      → All (IsRemote unicode filepath) result
      → IsGoverned unicode filepath reference
      → add s (more + walk_fuel) o result reference ≡ add s walk_fuel o result reference
  add-enough zero o result reference w h g = refl
  add-enough (suc more) o result reference w h g =
      let e : suc more + walk_fuel ≡ suc (more + walk_fuel) = omega arith in
      rw e (
        sym (add-stable (more + walk_fuel) o result reference w (omega arith) h g)
        ∙ add-enough more o result reference w h g)

  -- The fuel of `expand` is enough: with more of it, the walk has the same result, whatever the actions
  -- refer to.
  pub expand_references-enough :
      (more : ℕ) (o : Owner World) (references : References)
      → IsSound o
      → All (IsGoverned unicode filepath) references
      → each s (add s (more + walk_fuel)) o [] references ≡ expand_references s o references
  unfolding expand_references
  expand_references-enough more o references w g =
      each-Agree 0 (add s (more + walk_fuel)) (add s walk_fuel) o [] references
        (add-Keeps s (more + walk_fuel))
        (λ o' result reference w' le h g'. add-enough more o' result reference w' h g') w
        (omega arith) tt g
