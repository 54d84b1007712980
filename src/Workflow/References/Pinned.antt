-- ===== src/Workflow/References/Pinned.antt =====
-- goverify/workflow.go: an immutable reference to an action names what it runs, once and for all.
use verify.Prelude.{
  All, Bool, Option-cases, [], all, arith, false, inl, inr, length, some, true, ℕ, ◌++◌, ◌==◌, ◌∷◌,
  ◌≡◌, ◌≢◌, Bool-cases, Option, ap, none, refl, sym, ◌∙◌, subst,
}
use verify.Text.{
  Bytes, codes, cut, cut_byte, cut_prefix, cut_byte-append, onto, equal, has_prefix, trim_prefix,
}
use verify.Workflow.References.{
  is_lower_hex, lower_hex, immutable_remote_action, immutable_workflow_image, valid_workflow_image,
  immutable_local_workflow, immutable_workflow_action,
}
use verify.Text.Utf8.{Unicode}
use verify.Workflow.Paths.{
  Filepath, contains_at_or_backslash, local_action_directory, valid_relative_directory,
}

-- A digest or an object id.
abbrev pub IsHex : ℕ → Bytes → Type 0
IsHex size value = (length value ≡ size) × All (λ c. is_lower_hex c ≡ true) value

-- An image by its digest.
abbrev pub IsPinnedImage : Bytes → Type 0
IsPinnedImage value =
    (image : Bytes) × (digest : Bytes) × (value ≡ image ++ codes "@sha256:" ++ digest)
    × (image ≢ [])
    × IsHex 64 digest

-- An action of another repository, by the id of a commit.
abbrev pub IsPinnedAction : Bytes → Type 0
IsPinnedAction value =
    (repository : Bytes) × (revision : Bytes) × (value ≡ repository ++ b'@' ∷ revision)
    × All (λ c. (c == b'@') ≡ false) repository
    × IsHex 40 revision

all-All : (p : ℕ → Bool) (xs : Bytes) → all p xs ≡ true → All (λ c. p c ≡ true) xs
all-All p [] h = tt
all-All p (x ∷ xs) h = (ground arith, all-All p xs (ground arith))

lower_hex-IsHex : (value : Bytes) (size : ℕ) → lower_hex value size ≡ true → IsHex size value
unfolding lower_hex
lower_hex-IsHex value size h = (ground arith, all-All is_lower_hex value (ground arith))

cut_prefix-append : (v p : Bytes) {r : Bytes} → cut_prefix v p ≡ some r → v ≡ p ++ r
unfolding cut_prefix
cut_prefix-append v [] h = ground arith
cut_prefix-append [] (c ∷ p) h = ground arith
cut_prefix-append (x ∷ v) (c ∷ p) {r} h = ground (arith, cut_prefix-append v p {r = r})

onto-some :
    (x : ℕ) (o : Option (Bytes × Bytes)) {b a : Bytes}
    → onto x o ≡ some (b, a)
    → (rest : Bytes) × (b ≡ x ∷ rest) × (o ≡ some (rest, a))
onto-some x none h = ground arith
onto-some x (some (rest, r)) h = (rest, ground arith, ground arith)

cut-found : (v s : Bytes) {r : Bytes} → cut_prefix v s ≡ some r → cut v s ≡ some ([], r)
unfolding cut
cut-found [] s h = rw (h, cut) refl
cut-found (x ∷ v) s h = rw (h, cut) refl

cut_nil-none : (s : Bytes) → cut_prefix [] s ≡ none → cut [] s ≡ none
unfolding cut
cut_nil-none s h = rw (h, cut) refl

cut_cons-none :
    (x : ℕ) (v s : Bytes) → cut_prefix (x ∷ v) s ≡ none → cut (x ∷ v) s ≡ onto x (cut v s)
unfolding cut
cut_cons-none x v s h = rw (h, cut) refl

found-append :
    (v s : Bytes) {b a r : Bytes}
    → cut v s ≡ some (b, a)
    → cut_prefix v s ≡ some r
    → v ≡ b ++ s ++ a
found-append v s {b} {a} {r} h e =
    let found = cut-found v s e in
    let same : (b ≡ []) × (a ≡ r) = ground arith in rw (same.0, same.1) (cut_prefix-append v s e)

pub cut-append : (v s : Bytes) {b a : Bytes} → cut v s ≡ some (b, a) → v ≡ b ++ s ++ a
cut-append [] s {b} {a} h = elim (Option-cases (cut_prefix [] s)) [
  | inl e ↦ let missing = cut_nil-none s e in absurd (ground arith)
  | inr (r, e) ↦ found-append [] s h e
]
cut-append (x ∷ v) s {b} {a} h = elim (Option-cases (cut_prefix (x ∷ v) s)) [
  | inl e ↦
      let (rest, first, behind) = onto-some x (cut v s) (sym (cut_cons-none x v s e) ∙ h) in
      rw first (ap (◌∷◌ x) (cut-append v s {b = rest} {a = a} behind))
  | inr (r, e) ↦ found-append (x ∷ v) s h e
]

pub cut_byte-absent :
    (v : Bytes) (c : ℕ) {b a : Bytes} → cut_byte v c ≡ some (b, a) → All (λ x. (x == c) ≡ false) b
unfolding cut_byte
cut_byte-absent [] c h = ground arith
cut_byte-absent (x ∷ xs) c {b} {a} h = elim (Bool-cases (x == c)) [
  | inl here ↦ let none_before : b ≡ [] = ground arith in rw none_before tt
  | inr other ↦
      let (rest, first, behind) = onto-some x (cut_byte xs c) {b = b} {a = a} (ground arith) in
      rw first (other, cut_byte-absent xs c {b = rest} {a = a} behind)
]

equal-nonempty : (v : Bytes) → equal v [] ≡ false → v ≢ []
unfolding equal
equal-nonempty [] h = absurd (ground arith)
equal-nonempty (x ∷ v) h = λ e. absurd (ground arith)

pub immutable_workflow_image-IsPinnedImage :
    (u : Unicode) (value : Bytes) → immutable_workflow_image u value ≡ true → IsPinnedImage value
unfolding immutable_workflow_image valid_workflow_image
immutable_workflow_image-IsPinnedImage u value h =
    elim (Option-cases (cut value (codes "@sha256:"))) [
      | inl e ↦ absurd (ground arith)
      | inr ((image, digest), e) ↦ (
        image,
        digest,
        cut-append value (codes "@sha256:") e,
        equal-nonempty image (ground arith),
        lower_hex-IsHex digest 64 (ground arith),
      )
    ]

pub immutable_remote_action-IsPinnedAction :
    (value : Bytes) → immutable_remote_action value ≡ true → IsPinnedAction value
unfolding immutable_remote_action
immutable_remote_action-IsPinnedAction value h = elim (Option-cases (cut_byte value b'@')) [
  | inl e ↦ absurd (ground arith)
  | inr ((repository, revision), e) ↦ (
    repository,
    revision,
    cut_byte-append value b'@' e,
    cut_byte-absent value b'@' e,
    lower_hex-IsHex revision 40 (ground arith),
  )
]

-- What an immutable reference to an action may be: a local workflow or action, which has no revision,
-- an image by its digest, or an action of another repository by the id of a commit.
pub data IsImmutable (u : Unicode) (f : Filepath) (value : Bytes) : Type 0 where
  local_workflow :
      (rest : Bytes)
      → value ≡ codes "./.github/workflows/" ++ rest
      → contains_at_or_backslash value ≡ false
      → valid_relative_directory f (Filepath.from_slash f (codes ".github/workflows/" ++ rest))
        ≡ true
      → IsImmutable u f value
  local_action :
      (directory : Bytes)
      → local_action_directory u f value ≡ some directory
      → IsImmutable u f value
  image :
      (rest : Bytes)
      → value ≡ codes "docker://" ++ rest
      → IsPinnedImage rest
      → IsImmutable u f value
  remote : IsPinnedAction value → IsImmutable u f value

cut_prefix-has_prefix :
    (v p : Bytes) → has_prefix v p ≡ true → (rest : Bytes) × (cut_prefix v p ≡ some rest)
unfolding has_prefix cut_prefix
cut_prefix-has_prefix v [] h = (v, refl)
cut_prefix-has_prefix [] (c ∷ p) h = absurd (ground arith)
cut_prefix-has_prefix (x ∷ v) (c ∷ p) h =
    let (rest, e) = cut_prefix-has_prefix v p (ground arith) in (rest, ground arith)

trim_prefix-local : (rest : Bytes) → trim_prefix (codes "./" ++ rest) (codes "./") ≡ rest
unfolding trim_prefix cut_prefix
trim_prefix-local rest = refl

immutable_local_workflow-IsImmutable :
    (u : Unicode) (f : Filepath) (value : Bytes)
    → has_prefix value (codes "./.github/workflows/") ≡ true
    → immutable_local_workflow u f value ≡ true
    → IsImmutable u f value
unfolding immutable_local_workflow
immutable_local_workflow-IsImmutable u f value p h =
    let (rest, e) = cut_prefix-has_prefix value (codes "./.github/workflows/") p in
    let whole : value ≡ codes "./.github/workflows/" ++ rest = cut_prefix-append value _ e in
    let valid : valid_relative_directory f (Filepath.from_slash f (trim_prefix value (codes "./")))
        ≡ true =
      ground arith in
    let trimmed : trim_prefix value (codes "./") ≡ codes ".github/workflows/" ++ rest =
      ap (λ v. trim_prefix v (codes "./")) whole
      ∙ trim_prefix-local (codes ".github/workflows/" ++ rest) in
    local_workflow rest whole (ground arith)
      (subst (λ d. valid_relative_directory f (Filepath.from_slash f d) ≡ true) trimmed valid)

-- What `immutableWorkflowAction` admits is a workflow or an action of the repository itself, an image by
-- its SHA-256 digest, or an action of another repository by the full id of a commit.
pub immutable_workflow_action-IsImmutable :
    (u : Unicode) (f : Filepath) (value : Bytes)
    → immutable_workflow_action u f value ≡ true
    → IsImmutable u f value
unfolding immutable_workflow_action
immutable_workflow_action-IsImmutable u f value h =
    elim (Bool-cases (has_prefix value (codes "./.github/workflows/"))) [
      | inl p ↦ immutable_local_workflow-IsImmutable u f value p (ground arith)
      | inr q ↦ elim (Option-cases (local_action_directory u f value)) [
        | inr (directory, d) ↦ local_action directory d
        | inl d ↦ elim (Option-cases (cut_prefix value (codes "docker://"))) [
          | inr (rest, e) ↦
              image rest (cut_prefix-append value (codes "docker://") e)
                (immutable_workflow_image-IsPinnedImage u rest (ground arith))
          | inl e ↦ remote (immutable_remote_action-IsPinnedAction value (ground arith))
        ]
      ]
    ]
