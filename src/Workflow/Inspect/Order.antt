-- ===== src/Workflow/Inspect/Order.antt =====
-- goverify/workflow.go: the sorting of references by their lines and their values. `slices.SortFunc`
-- leaves the order of equal references open; this one keeps it.
use verify.Prelude.{
  All, List, [], ap, arith, false, if_elim, if◌then◌else◌, length, not, refl, suc, true, ℕ, ℤ, ◌==◌,
  ◌∙◌, ◌∷◌, ◌≡◌,
}
use verify.Workflow.{WorkflowReference}
use verify.Workflow.Inspect.{References}
use verify.Currency.Version.{compare_bytes, difference, is_positive}

-- The comparison of `InspectWorkflowReferences`.
unfoldable pub compare_references : WorkflowReference → WorkflowReference → ℤ
compare_references left right =
    if not (left.line == right.line)
    then difference left.line right.line
    else compare_bytes left.value right.value

unfoldable pub insert : WorkflowReference → References → References
insert r [] = r ∷ []
insert r (s ∷ references) =
    if is_positive (compare_references r s) then s ∷ insert r references else r ∷ s ∷ references

unfoldable pub sort : References → References
sort [] = []
sort (r ∷ references) = insert r (sort references)

-- No reference is greater than the next one.
abbrev pub IsSorted : References → Type 0
IsSorted [] = Unit
IsSorted (r ∷ []) = Unit
IsSorted (r ∷ s ∷ references) =
    (is_positive (compare_references r s) ≡ false) × IsSorted (s ∷ references)

compare_bytes_asym :
    (a b : List ℕ)
    → is_positive (compare_bytes a b) ≡ true
    → is_positive (compare_bytes b a) ≡ false
unfolding compare_bytes
compare_bytes_asym [] [] h = ground arith
compare_bytes_asym [] (y ∷ b) h = ground arith
compare_bytes_asym (x ∷ a) [] h = ground arith
compare_bytes_asym (x ∷ a) (y ∷ b) h = ground (arith, compare_bytes_asym a b)

compare_references_asym :
    (r s : WorkflowReference)
    → is_positive (compare_references r s) ≡ true
    → is_positive (compare_references s r) ≡ false
unfolding compare_references
compare_references_asym r s h = ground (arith, compare_bytes_asym r.value s.value)

insert-behind :
    (t r : WorkflowReference) (references : References)
    → is_positive (compare_references t r) ≡ false
    → IsSorted (t ∷ references)
    → IsSorted (insert r references)
    → IsSorted (t ∷ insert r references)
unfolding insert
insert-behind t r [] le h k = (le, tt)
insert-behind t r (s ∷ references) le h k =
    if_elim (λ (xs : References). IsSorted xs → IsSorted (t ∷ xs))
      (is_positive (compare_references r s)) {x = s ∷ insert r references} {y = r ∷ s ∷ references}
      (λ e sorted. (h.0, sorted)) (λ e sorted. (le, sorted)) k

tail-IsSorted :
    (r : WorkflowReference) (references : References)
    → IsSorted (r ∷ references)
    → IsSorted references
tail-IsSorted r [] h = tt
tail-IsSorted r (s ∷ references) h = h.1

insert-IsSorted :
    (r : WorkflowReference) (references : References)
    → IsSorted references
    → IsSorted (insert r references)
unfolding insert
insert-IsSorted r [] h = tt
insert-IsSorted r (s ∷ references) h =
    if_elim IsSorted (is_positive (compare_references r s))
      (λ e.
        insert-behind s r references (compare_references_asym r s e) h
          (insert-IsSorted r references (tail-IsSorted s references h)))
      (λ e. (e, h))

pub sort-IsSorted : (references : References) → IsSorted (sort references)
unfolding sort
sort-IsSorted [] = tt
sort-IsSorted (r ∷ references) = insert-IsSorted r (sort references) (sort-IsSorted references)

insert-All :
    (P : WorkflowReference → Type 0) (r : WorkflowReference) (references : References)
    → P r
    → All P references
    → All P (insert r references)
unfolding insert
insert-All P r [] h k = (h, tt)
insert-All P r (s ∷ references) h k =
    if_elim (All P) (is_positive (compare_references r s))
      (λ e. (k.0, insert-All P r references h k.1)) (λ e. (h, k))

pub sort-All :
    (P : WorkflowReference → Type 0) (references : References)
    → All P references
    → All P (sort references)
unfolding sort
sort-All P [] h = tt
sort-All P (r ∷ references) h = insert-All P r (sort references) h.0 (sort-All P references h.1)

length-insert :
    (r : WorkflowReference) (references : References)
    → length (insert r references) ≡ suc (length references)
unfolding insert
length-insert r [] = refl
length-insert r (s ∷ references) = ground (arith, length-insert r references)

pub length-sort : (references : References) → length (sort references) ≡ length references
unfolding sort
length-sort [] = refl
length-sort (r ∷ references) = length-insert r (sort references) ∙ ap suc (length-sort references)
