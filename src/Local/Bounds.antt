-- ===== src/Local/Bounds.antt =====
-- goverify/local_action.go: what the walk keeps to.
use verify.Prelude.{
  All, All-append, Bool-cases, [], ap, arith, inl, inr, length, length-append, ltb, refl, subst,
  sym, true, ℕ, ◌++◌, ◌+◌, ◌∙◌, ◌∷◌, ◌≡◌, ◌≤◌,
}
use verify.Text.{Bytes, codes, equal}
use verify.Errors.{
  >>=-eq-ok, Result, Result-cases, if_false-ok, is_nil, ok, ok-injective, workflow_references,
  ◌>>=◌,
}
use verify.Workflow.{WorkflowReference, max_workflow_bytes}
use verify.Workflow.Paths.{Filepath}
use verify.Workflow.Tree.{contains}
use verify.Workflow.Inspect.{References}
use verify.Workflow.Inspect.Governed.{IsGoverned}
use verify.Local.{Owner, max_local_action_bytes}
use verify.Local.Walk.{Setting, each, find_metadata, polled, read, read_metadata}
use verify.Source.{read_bounded_source_limit}
use verify.Workflow.Admission.{Files}
use verify.Local.Sound.{IsRemote, IsSound, IsStep, WasRead, total_bytes-append}

module _ (s : Setting) where
  open s use {World, context_error, files, yaml, unicode, filepath, workflows}

  -- The step for one reference keeps to all this.
  abbrev pub Keeps :
      (Owner World → References → WorkflowReference → Result (References × Owner World)) → Type 0
  Keeps step =
      (o : Owner World) (result : References) (reference : WorkflowReference)
      (r : References × Owner World)
      → IsSound o
      → All (IsRemote unicode filepath) result
      → IsGoverned unicode filepath reference
      → step o result reference ≡ ok r
      → IsStep files unicode filepath o r

  pub stays-IsStep :
      (o : Owner World) (result : References)
      → IsSound o
      → All (IsRemote unicode filepath) result
      → IsStep files unicode filepath o (result, o)
  stays-IsStep o result k h = record {
    sound = k;
    sources = [];
    were_read = tt;
    spent = omega arith;
    one_for_each = omega arith;
    growing = omega arith;
    counted = refl;
    restored = refl;
    unvisited = λ key e. refl;
    remote = h;
  }

  IsStep-trans :
      (o : Owner World) (r t : References × Owner World)
      → IsStep files unicode filepath o r
      → IsStep files unicode filepath r.1 t
      → IsStep files unicode filepath o t
  IsStep-trans o r t x y = record {
    sound = y.sound;
    sources = x.sources ++ y.sources;
    were_read = All-append (WasRead files) x.sources y.sources x.were_read y.were_read;
    spent = omega (arith, x.spent, y.spent, total_bytes-append x.sources y.sources);
    one_for_each = omega (arith, x.one_for_each, y.one_for_each, length-append x.sources y.sources);
    growing = omega (arith, x.growing, y.growing);
    counted = omega (arith, x.counted, y.counted);
    restored = y.restored ∙ x.restored;
    unvisited = λ key e.
        y.unvisited key (subst (λ a. contains a key ≡ true) (sym x.restored) e) ∙ x.unvisited key e;
    remote = y.remote;
  }

  pub each-IsStep :
      (step : Owner World → References → WorkflowReference → Result (References × Owner World))
      (o : Owner World) (result references : References) {r : References × Owner World}
      → Keeps step
      → IsSound o
      → All (IsRemote unicode filepath) result
      → All (IsGoverned unicode filepath) references
      → each s step o result references ≡ ok r
      → IsStep files unicode filepath o r
  unfolding each
  each-IsStep step o result [] {r} k w h g e =
      subst (IsStep files unicode filepath o) (ok-injective e) (stays-IsStep o result w h)
  each-IsStep step o result (reference ∷ references) {r} k w h g e =
      let (t, first, behind) =
        >>=-eq-ok (step o result reference) (λ r. each s step r.1 r.0 references) {last = r} e in
      let x = k o result reference t w h g.0 first in
      IsStep-trans o t r x
        (each-IsStep step t.1 t.0 references {r = r} k x.sound x.remote g.1 behind)

  pub polled-lem :
      (o : Owner World) {p : Owner World}
      → polled s o ≡ ok p
      → (w : World) × (p ≡ record o { world = w })
  unfolding polled
  polled-lem o {p} e = elim (Bool-cases (is_nil (context_error o.world).0)) [
    | inl h ↦ (
      (context_error o.world).1,
      (let stored : ok (record o { world = (context_error o.world).1 }) ≡ ok p = rw h at e in
          sym (ok-injective stored)),
    )
    | inr h ↦ absurd (ground arith)
  ]

  -- The reading of metadata changes nothing but the number of bytes, by those that were read.
  read_metadata-IsSound :
      (o : Owner World) (metadata : Bytes) {r : Bytes × Bytes × Owner World}
      → IsSound o
      → read_metadata s o metadata ≡ ok r
      → (n : ℕ) × (r.2 ≡ record o { bytes = n })
        × (n ≤ 16777216)
        × WasRead files r.0
        × (n ≡ o.bytes + length r.0)
  unfolding read_metadata
  read_metadata-IsSound o metadata {r} k e =
      let opened = if_false-ok (equal metadata []) (workflow_references ∷ []) e in
      elim (Result-cases (Files.open_file files metadata)) [
        | inr (c, h) ↦ absurd (ground arith)
        | inl (file, h) ↦
            elim (Result-cases
              (read_bounded_source_limit file workflow_references max_workflow_bytes)) [
                | inr (c, j) ↦ absurd (ground arith)
                | inl (source, j) ↦
                    elim (Bool-cases (ltb max_local_action_bytes (o.bytes + length source))) [
                      | inl over ↦ absurd (ground arith)
                      | inr room ↦
                          let same : ok (
                            source,
                            Filepath.to_slash filepath metadata,
                            record o { bytes = o.bytes + length source },
                          )
                              ≡ ok r =
                            ground arith in
                          let kept =
                            ap (λ (x : Bytes × Bytes × Owner World). x.2) (ok-injective same) in
                          let first : source ≡ r.0 =
                            ap (λ (x : Bytes × Bytes × Owner World). x.0) (ok-injective same) in
                          (
                            o.bytes + length source,
                            sym kept,
                            ground arith,
                            subst (WasRead files) first (metadata, file, h, j),
                            ap (λ (z : Bytes). o.bytes + length z) first,
                          )
                    ]
              ]
      ]

  pub read-IsSound :
      (o : Owner World) (directory : Bytes) {r : Bytes × Bytes × Owner World}
      → IsSound o
      → read s o directory ≡ ok r
      → (w : World) × (n : ℕ) × (r.2 ≡ record o { world = w; bytes = n })
        × (n ≤ 16777216)
        × WasRead files r.0
        × (n ≡ o.bytes + length r.0)
  unfolding read
  read-IsSound o directory {r} k e =
      let (p, first, e1) =
        >>=-eq-ok (polled s o)
          (λ p.
            find_metadata s directory [] (codes "action.yml" ∷ codes "action.yaml" ∷ [])
            >>= λ metadata. read_metadata s p metadata)
          {last = r} e in
      let (w, same) = polled-lem o first in
      let (metadata, chosen, e2) =
        >>=-eq-ok (find_metadata s directory [] (codes "action.yml" ∷ codes "action.yaml" ∷ []))
          (λ metadata. read_metadata s p metadata) {last = r} e1 in
      let here : read_metadata s (record o { world = w }) metadata ≡ ok r =
        subst (λ z. read_metadata s z metadata ≡ ok r) same e2 in
      let (n, kept, le, was_read, spent) =
        read_metadata-IsSound (record o { world = w }) metadata
          (record {
            actions_limit = k.actions_limit;
            bytes_limit = k.bytes_limit;
            references_limit = k.references_limit;
            distinct = k.distinct;
          })
          here in
      (w, n, kept, le, was_read, spent)
