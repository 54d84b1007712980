-- ===== src/Workflow/References.antt =====
-- goverify/workflow.go: which references are immutable, and goverify/workflow_currency.go: the
-- repository and the revision in a reference to an action.
pub mod Pinned
use verify.Prelude.{
  Bool, List, [], all, any, false, if◌then◌else◌, is_some, leb, length, ltb, none, not, some, true,
  ℕ, ◌&&◌, ◌++◌, ◌==◌, ◌||◌, ◌∷◌,
}
use verify.Text.{
  Bytes, codes, cut, cut_byte, cut_prefix, cut_suffix, equal, has_prefix, split_byte, trim_prefix,
}
use verify.Text.Utf8.{Unicode, runes}
use verify.Workflow.Paths.{
  Filepath, contains_at_or_backslash, local_action_directory, valid_fuzz_text,
  valid_relative_directory, valid_workflow_path_components,
}

-- `workflowCommitBytes`
abbrev pub workflow_commit_bytes : ℕ
workflow_commit_bytes = 40

-- `workflowDigestBytes`
abbrev pub workflow_digest_bytes : ℕ
workflow_digest_bytes = 64

abbrev pub is_lower_hex : ℕ → Bool
is_lower_hex c = (leb b'0' c && leb c b'9') || (leb b'a' c && leb c b'f')

-- `lowerHex`
unfoldable pub lower_hex : Bytes → ℕ → Bool
lower_hex value size = length value == size && all is_lower_hex value

-- `workflowRepositoryCharacter`
unfoldable pub workflow_repository_character : ℕ → Bool
workflow_repository_character value =
    (leb b'A' value && leb value b'Z')
    || (leb b'a' value && leb value b'z')
    || (leb b'0' value && leb value b'9')
    || value == b'_'
    || value == b'-'
    || value == b'.'

-- The body of the loop of `validWorkflowRepository`.
unfoldable pub valid_repository_part : Bytes → Bool
unfolding workflow_repository_character
valid_repository_part part =
    not (equal part [] || equal part (codes ".") || equal part (codes ".."))
    && all (λ d. workflow_repository_character d.0) (runes part)

-- `validWorkflowRepository`
unfoldable pub valid_workflow_repository : Bytes → Bool
unfolding valid_repository_part
valid_workflow_repository value =
    let parts = split_byte value b'/' in
    not (ltb (length parts) 2) && all valid_repository_part parts

-- `validWorkflowImage`
unfoldable pub valid_workflow_image : Unicode → Bytes → Bool
valid_workflow_image u value =
    not (equal value [])
    && all (λ d. not (not (Unicode.is_print u d.0) || Unicode.is_space u d.0 || d.0 == b'@'))
        (runes value)

abbrev pub contains_at : Bytes → Bool
contains_at value = any (λ c. c == b'@') value

-- `immutableWorkflowImage`
unfoldable pub immutable_workflow_image : Unicode → Bytes → Bool
unfolding lower_hex
immutable_workflow_image u value = elim (cut value (codes "@sha256:")) [
  | none ↦ false
  | some (image, digest) ↦
      valid_workflow_image u image
      && not (contains_at digest)
      && lower_hex digest workflow_digest_bytes
]

-- A reference to a workflow of the repository itself.
unfoldable pub immutable_local_workflow : Unicode → Filepath → Bytes → Bool
immutable_local_workflow u f value =
    valid_fuzz_text u value
    && valid_relative_directory f (Filepath.from_slash f (trim_prefix value (codes "./")))
    && valid_workflow_path_components f value
    && not (contains_at_or_backslash value)
    && (is_some (cut_suffix value (codes ".yml")) || is_some (cut_suffix value (codes ".yaml")))

-- A reference to an action of another repository.
unfoldable pub immutable_remote_action : Bytes → Bool
unfolding lower_hex
immutable_remote_action value = elim (cut_byte value b'@') [
  | none ↦ false
  | some (repository, revision) ↦
      not (contains_at revision)
      && valid_workflow_repository repository
      && lower_hex revision workflow_commit_bytes
]

-- `immutableWorkflowAction`
unfoldable pub immutable_workflow_action : Unicode → Filepath → Bytes → Bool
immutable_workflow_action u f value =
    if has_prefix value (codes "./.github/workflows/")
    then immutable_local_workflow u f value
    else if is_some (local_action_directory u f value)
    then true
    else elim (cut_prefix value (codes "docker://")) [
      | some image ↦ immutable_workflow_image u image
      | none ↦ immutable_remote_action value
    ]

-- The first two of the parts between slashes.
abbrev pub first_two : List Bytes → Bytes
first_two [] = []
first_two (owner ∷ []) = []
first_two (owner ∷ name ∷ parts) = owner ++ b'/' ∷ name

-- `workflowActionRepository`
unfoldable pub workflow_action_repository : Bytes → Bytes
workflow_action_repository value =
    if has_prefix value (codes "./") || has_prefix value (codes "docker://")
    then []
    else elim (cut_byte value b'@') [
      | none ↦ []
      | some (repository, revision) ↦ first_two (split_byte repository b'/')
    ]

-- `workflowActionRevision`
unfoldable pub workflow_action_revision : Bytes → Bytes
workflow_action_revision value = elim (cut_byte value b'@') [
  | none ↦ []
  | some (repository, revision) ↦ revision
]
