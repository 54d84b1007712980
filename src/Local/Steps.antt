-- ===== src/Local/Steps.antt =====
-- goverify/local_action.go: each step of the walk, and `expand`, keep to the limits.
use verify.Prelude.{
  All, All-append, Bool-cases, Option-cases, [], ap, arith, false, if◌then◌else◌, inl, inr, length,
  map, refl, subst, suc, true, zero, ℕ, ◌++◌, ◌+◌, ◌==◌, ◌∙◌, ◌∷◌, ◌≡◌, ◌≤◌,
}
use verify.Text.{Bytes, codes, cut_prefix, equal_refl}
use verify.Errors.{
  Result, if_false-ok, ok, ok-injective, workflow_references, >>=-eq-ok, err, ◌>>=◌, if_err-false,
  joined-ok, joined,
}
use verify.Workflow.{WorkflowReference, max_workflow_references}
use verify.Workflow.Paths.{local_action_directory}
use verify.Workflow.Tree.{contains}
use verify.Workflow.Inspect.{References}
use verify.Workflow.Inspect.Governed.{IsGoverned}
use verify.Local.{Owner, max_local_actions, remove}
use verify.Local.Walk.{
  Setting, add, add_local_action, add_reference, expand_references, left, walk_fuel, begun, each,
  located, polled, read,
}
use verify.Local.Sound.{
  IsRemote, IsSound, IsStep, WasRead, equal-contains, located-IsGoverned, remove-first,
}
use verify.Local.Bounds.{Keeps, each-IsStep, stays-IsStep, polled-lem, read-IsSound}
use verify.Local.Inspect.{
  inspect_local_action_references, inspect_local_action_references-IsBounded,
}

module _ (s : Setting) where
  open s use {World, context_error, files, yaml, unicode, filepath, workflows}

  -- The owner inside an action, behind the reading of its metadata.
  abbrev pub entered : Owner World → Bytes → World → ℕ → Owner World
  entered o directory w n = record o {
    world = w;
    active = directory ∷ o.active;
    actions = o.actions + 1;
    bytes = n;
  }

  pub entered-IsSound :
      (o : Owner World) (directory : Bytes) (w : World) (n : ℕ)
      → IsSound o
      → (o.actions == max_local_actions) ≡ false
      → n ≤ 16777216
      → IsSound (entered o directory w n)
  entered-IsSound o directory w n k room le = record {
    actions_limit = ground (arith, k.actions_limit);
    bytes_limit = le;
    references_limit = k.references_limit;
    distinct = k.distinct;
  }

  -- The steps inside an action make one step of the whole.
  left-IsStep :
      (o : Owner World) (directory : Bytes) (w : World) (n : ℕ) (source : Bytes)
      (t : References × Owner World)
      → contains o.active directory ≡ false
      → contains o.visited directory ≡ false
      → WasRead files source
      → n ≡ o.bytes + length source
      → IsStep files unicode filepath (entered o directory w n) t
      → IsStep files unicode filepath o (left s directory t)
  unfolding contains
  left-IsStep o directory w n source t idle fresh was_read more x =
      let here : contains (directory ∷ o.active) directory ≡ true =
        rw (equal_refl directory) refl in
      record {
        sound = record {
          actions_limit = x.sound.actions_limit;
          bytes_limit = x.sound.bytes_limit;
          references_limit = x.sound.references_limit;
          distinct = (x.unvisited directory here ∙ fresh, x.sound.distinct);
        };
        sources = source ∷ x.sources;
        were_read = (was_read, x.were_read);
        spent = omega (arith, x.spent, more);
        one_for_each = omega (arith, x.one_for_each);
        growing = omega (arith, x.growing);
        counted = omega (arith, x.counted);
        restored = ap (remove directory) x.restored ∙ remove-first directory o.active idle;
        unvisited = λ key e.
            let apart = equal-contains directory key o.active idle e in
            rw apart (x.unvisited key (rw (apart, e) refl));
        remote = x.remote;
      }

  begun-IsStep :
      (step : Owner World → References → WorkflowReference → Result (References × Owner World))
      (o : Owner World) (result : References) (directory : Bytes) {r : References × Owner World}
      → Keeps s step
      → IsSound o
      → All (IsRemote unicode filepath) result
      → contains o.active directory ≡ false
      → contains o.visited directory ≡ false
      → (o.actions == max_local_actions) ≡ false
      → begun s step o result directory ≡ ok r
      → IsStep files unicode filepath o r
  unfolding begun
  begun-IsStep step o result directory {r} k w h idle fresh room e =
      let start = record o { actions = o.actions + 1; active = directory ∷ o.active } in
      let (m, reading, e1) =
        >>=-eq-ok (read s start directory)
          (λ m.
            joined workflow_references (inspect_local_action_references yaml unicode filepath m.0)
            >>= λ references. each s step m.2 result (map (located m.1) references) >>= λ after.
                ok (left s directory after))
          {last = r} e in
      let (references, inspected, e2) =
        >>=-eq-ok
          (joined workflow_references (inspect_local_action_references yaml unicode filepath m.0))
          (λ references. each s step m.2 result (map (located m.1) references) >>= λ after.
            ok (left s directory after))
          {last = r} e1 in
      let (t, inside, e3) =
        >>=-eq-ok (each s step m.2 result (map (located m.1) references))
          (λ after. ok (left s directory after)) {last = r} e2 in
      let (v, n, same, le, was_read, more) =
        read-IsSound s start directory {r = m}
          (entered-IsSound o directory o.world o.bytes w room w.bytes_limit) reading in
      let here : each s step (entered o directory v n) result (map (located m.1) references)
          ≡ ok t =
        subst (λ z. each s step z result (map (located m.1) references) ≡ ok t) same inside in
      let governed = inspect_local_action_references-IsBounded yaml unicode filepath m.0 (
        joined-ok workflow_references (inspect_local_action_references yaml unicode filepath m.0)
          inspected) in
      let x =
        each-IsStep s step (entered o directory v n) result (map (located m.1) references) {r = t} k
          (entered-IsSound o directory v n w room le) h
          (located-IsGoverned unicode filepath m.1 references governed.0) here in
      subst (IsStep files unicode filepath o) (ok-injective e3)
        (left-IsStep o directory v n m.0 t idle fresh was_read more x)

  add_local_action-IsStep :
      (step : Owner World → References → WorkflowReference → Result (References × Owner World))
      (o : Owner World) (result : References) (directory : Bytes) {r : References × Owner World}
      → Keeps s step
      → IsSound o
      → All (IsRemote unicode filepath) result
      → add_local_action s step o result directory ≡ ok r
      → IsStep files unicode filepath o r
  unfolding add_local_action
  add_local_action-IsStep step o result directory {r} k w h e =
      let idle = if_false-ok (contains o.active directory) (workflow_references ∷ []) e in
      elim (Bool-cases (contains o.visited directory)) [
        | inl seen ↦
            let same : ok (result, o) ≡ ok r = rw seen at idle in
            subst (IsStep files unicode filepath o) (ok-injective same)
              (stays-IsStep s o result w h)
        | inr fresh ↦
            let unseen = rw fresh at idle in
            let chain =
              if_false-ok (o.actions == max_local_actions) (workflow_references ∷ []) unseen in
            elim (Bool-cases (o.actions == max_local_actions)) [
              | inl full ↦ absurd (ground arith)
              | inr room ↦
                  begun-IsStep step o result directory {r = r} k w h
                    (if_err-false (contains o.active directory) (workflow_references ∷ []) _ e)
                    fresh room chain
            ]
      ]

  add_reference-IsStep :
      (step : Owner World → References → WorkflowReference → Result (References × Owner World))
      (o : Owner World) (result : References) (reference : WorkflowReference)
      {r : References × Owner World}
      → Keeps s step
      → IsSound o
      → All (IsRemote unicode filepath) result
      → IsGoverned unicode filepath reference
      → add_reference s step o result reference ≡ ok r
      → IsStep files unicode filepath o r
  unfolding add_reference
  add_reference-IsStep step o result reference {r} k w h g e =
      elim (Option-cases (cut_prefix reference.value (codes "./.github/workflows/"))) [
        | inr (local, found) ↦
            let same : ok (result, o) ≡ ok r = ground arith in
            subst (IsStep files unicode filepath o) (ok-injective same)
              (stays-IsStep s o result w h)
        | inl other_value ↦
            elim (Option-cases (local_action_directory unicode filepath reference.value)) [
              | inl remote ↦
                  let same : ok (result ++ reference ∷ [], o) ≡ ok r = ground arith in
                  let kept : IsRemote unicode filepath reference = record {
                    governed = g;
                    no_workflow = other_value;
                    no_action = remote;
                  } in
                  subst (IsStep files unicode filepath o) (ok-injective same) (
                    stays-IsStep s o (result ++ reference ∷ []) w
                      (All-append (IsRemote unicode filepath) result (reference ∷ []) h (kept, tt)))
              | inr (directory, found) ↦
                  add_local_action-IsStep step o result directory {r = r} k w h (ground arith)
            ]
      ]

  -- The owner behind the tests of `add`.
  abbrev pub taken : Owner World → World → Owner World
  taken o v = record o { world = v; references = o.references + 1 }

  pub taken-IsSound :
      (o : Owner World) (v : World)
      → IsSound o
      → (o.references == max_workflow_references) ≡ false
      → IsSound (taken o v)
  taken-IsSound o v w room = record {
    actions_limit = w.actions_limit;
    bytes_limit = w.bytes_limit;
    references_limit = ground (arith, w.references_limit);
    distinct = w.distinct;
  }

  pub add-Keeps : (fuel : ℕ) → Keeps s (add s fuel)
  unfolding add
  add-Keeps zero o result reference r w h g e = absurd (ground arith)
  add-Keeps (suc fuel) o result reference r w h g e =
      let (p, first, e1) =
        >>=-eq-ok (polled s o)
          (λ p.
            if p.references == max_workflow_references
            then err (workflow_references ∷ [])
            else add_reference s (add s fuel) (record p { references = p.references + 1 }) result
                reference)
          {last = r} e in
      let (v, same) = polled-lem s o first in
      let room =
        if_err-false (p.references == max_workflow_references) (workflow_references ∷ []) _ e1 in
      let chain =
        if_false-ok (p.references == max_workflow_references) (workflow_references ∷ []) e1 in
      let room' : (o.references == max_workflow_references) ≡ false =
        subst (λ (z : Owner World). (z.references == max_workflow_references) ≡ false) same room in
      let here : add_reference s (add s fuel) (taken o v) result reference ≡ ok r =
        subst
          (λ (z : Owner World).
            add_reference s (add s fuel) (record z { references = z.references + 1 }) result
              reference
            ≡ ok r)
          same chain in
      let sound = taken-IsSound o v w room' in
      let x =
        add_reference-IsStep (add s fuel) (taken o v) result reference {r = r} (add-Keeps fuel)
          sound h g here in
      record {
        sound = x.sound;
        sources = x.sources;
        were_read = x.were_read;
        spent = x.spent;
        one_for_each = x.one_for_each;
        growing = x.growing;
        counted = x.counted;
        restored = x.restored;
        unvisited = x.unvisited;
        remote = x.remote;
      }

  -- What `expand` returns, from an owner within its limits and from references that are immutable, are
  -- immutable references that lead out of the repository. It visits each action once and reads one file
  -- for each action that it begins, and counts all bytes of these files; the actions begun stay within
  -- `MaxLocalActions` and the bytes within `MaxLocalActionBytes`, and the same actions are active as before.
  pub expand_references-IsStep :
      (o : Owner World) (references : References) {r : References × Owner World}
      → IsSound o
      → All (IsGoverned unicode filepath) references
      → expand_references s o references ≡ ok r
      → IsStep files unicode filepath o r
  unfolding expand_references
  expand_references-IsStep o references {r} w g e =
      each-IsStep s (add s walk_fuel) o [] references {r = r} (add-Keeps walk_fuel) w tt g e
