-- ===== src/Local/Sound.antt =====
-- goverify/local_action.go: what is claimed of the owner of a walk and of its steps.
use verify.Prelude.{
  All, Bool-cases, List, [], ap, arith, false, inl, inr, length, map, none, refl, subst, sym, true,
  ℕ, ◌++◌, ◌+◌, ◌∷◌, ◌≡◌, ◌≤◌,
}
use verify.Text.{Bytes, codes, cut_prefix, equal, equal_iff, equal_refl}
use verify.Text.Utf8.{Unicode}
use verify.Errors.{ok, workflow_references}
use verify.Source.{BoundedSource, read_bounded_source_limit}
use verify.Workflow.Admission.{Files}
use verify.Workflow.{WorkflowReference, max_workflow_bytes}
use verify.Workflow.Paths.{Filepath, local_action_directory}
use verify.Workflow.Tree.{contains}
use verify.Workflow.Inspect.{References}
use verify.Workflow.Inspect.Governed.{IsGoverned}
use verify.Local.{Owner, remove}
use verify.Local.Walk.{located}

-- No key twice.
abbrev pub IsDistinct : List Bytes → Type 0
IsDistinct [] = Unit
IsDistinct (key ∷ keys) = (contains keys key ≡ false) × IsDistinct keys

-- An owner within its limits, that has visited no action twice.
pub record IsSound {World : Type 0} (o : Owner World) : Type 0 where
  pub actions_limit : o.actions ≤ 254
  pub bytes_limit : o.bytes ≤ 16777216
  pub references_limit : o.references ≤ 4096
  pub distinct : IsDistinct o.visited

-- A reference that is immutable, and leads out of the repository.
pub record IsRemote (u : Unicode) (f : Filepath) (r : WorkflowReference) : Type 0 where
  pub governed : IsGoverned u f r
  pub no_workflow : cut_prefix r.value (codes "./.github/workflows/") ≡ none
  pub no_action : local_action_directory u f r.value ≡ none

-- A file below the root that was read to its end.
abbrev pub WasRead : Files → Bytes → Type 0
WasRead files source =
    (path : Bytes) × (file : BoundedSource) × (Files.open_file files path ≡ ok file)
    × (read_bounded_source_limit file workflow_references max_workflow_bytes ≡ ok source)

abbrev pub total_bytes : List Bytes → ℕ
total_bytes [] = 0
total_bytes (source ∷ sources) = length source + total_bytes sources

-- From an owner to another with the references found: within the limits, with one file read and one more
-- visit for each action that was begun, all bytes of these files counted, and with the same actions
-- active, none of which has been visited on the way.
pub record IsStep (files : Files) (u : Unicode) (f : Filepath) {World : Type 0} (o : Owner World)
    (r : References × Owner World) : Type 0 where
  pub sound : IsSound r.1
  pub sources : List Bytes
  pub were_read : All (WasRead files) sources
  pub spent : Owner.bytes r.1 ≡ o.bytes + total_bytes sources
  pub one_for_each : Owner.actions r.1 ≡ o.actions + length sources
  pub growing : o.actions ≤ Owner.actions r.1
  pub counted : Owner.actions r.1 + length o.visited ≡ o.actions + length (Owner.visited r.1)
  pub restored : Owner.active r.1 ≡ o.active
  pub unvisited :
      (key : Bytes)
      → contains o.active key ≡ true
      → contains (Owner.visited r.1) key ≡ contains o.visited key
  pub remote : All (IsRemote u f) r.0

pub remove-absent :
    (key : Bytes) (keys : List Bytes) → contains keys key ≡ false → remove key keys ≡ keys
unfolding contains remove
remove-absent key [] h = refl
remove-absent key (k ∷ keys) h =
    let differs : equal k key ≡ false = ground arith in
    rw differs (ap (◌∷◌ k) (remove-absent key keys (ground arith)))

pub remove-first :
    (key : Bytes) (keys : List Bytes) → contains keys key ≡ false → remove key (key ∷ keys) ≡ keys
unfolding remove
remove-first key keys h = rw (equal_refl key) (remove-absent key keys h)

pub equal-contains :
    (k key : Bytes) (keys : List Bytes)
    → contains keys k ≡ false
    → contains keys key ≡ true
    → equal k key ≡ false
equal-contains k key keys h e = elim (Bool-cases (equal k key)) [
  | inr differs ↦ differs
  | inl same ↦
      let there : contains keys k ≡ true =
        subst (λ z. contains keys z ≡ true) (sym ((equal_iff k key).0 same)) e in
      absurd (ground arith)
]

pub located-IsGoverned :
    (u : Unicode) (f : Filepath) (path : Bytes) (references : References)
    → All (IsGoverned u f) references
    → All (IsGoverned u f) (map (located path) references)
located-IsGoverned u f path [] h = tt
located-IsGoverned u f path (r ∷ references) h = (
  record { fixed = h.0.fixed; versioned = h.0.versioned },
  located-IsGoverned u f path references h.1,
)

pub total_bytes-append : (a b : List Bytes) → total_bytes (a ++ b) ≡ total_bytes a + total_bytes b
total_bytes-append [] b = omega arith
total_bytes-append (source ∷ a) b = omega (arith, total_bytes-append a b)
