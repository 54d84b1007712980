-- ===== src/Identity.antt =====
-- cmd/secverify/identity.go: the identity of the source that an executable was built from, by the
-- settings of the version control that the build has recorded.
pub mod Settings
pub mod Version
use verify.Prelude.{
  Bool, List, Option, [], all, false, if◌then◌else◌, leb, length, none, not, some, true, ℕ, ◌&&◌,
  ◌++◌, ◌==◌, ◌||◌, ◌∷◌,
}
use verify.Text.{Bytes, codes, equal}

-- `debug.BuildSetting`
pub record Setting : Type 0 where
  pub key : Bytes
  pub value : Bytes

-- `sourceMetadata`
pub record SourceMetadata : Type 0 where
  pub vcs : Bytes
  pub revision : Bytes
  pub modified : Bool
  pub seen_vcs : Bool
  pub seen_revision : Bool
  pub seen_modified : Bool

abbrev pub no_metadata : SourceMetadata
no_metadata = record {
  vcs = [];
  revision = [];
  modified = false;
  seen_vcs = false;
  seen_revision = false;
  seen_modified = false;
}

-- `sourceMetadata.add`
unfoldable pub add : SourceMetadata → Setting → Option SourceMetadata
add m s =
    if equal s.key (codes "vcs")
    then (if m.seen_vcs then none else some (record m { seen_vcs = true; vcs = s.value }))
    else if equal s.key (codes "vcs.revision")
    then (if m.seen_revision
        then none
        else some (record m { seen_revision = true; revision = s.value }))
    else if equal s.key (codes "vcs.modified")
    then (if m.seen_modified
          || (not (equal s.value (codes "true")) && not (equal s.value (codes "false")))
        then none
        else some (record m { seen_modified = true; modified = equal s.value (codes "true") }))
    else some m

-- The loop of `sourceIdentity`.
unfoldable pub metadata_from : SourceMetadata → List Setting → Option SourceMetadata
metadata_from m [] = some m
metadata_from m (s ∷ settings) = elim (add m s) [
  | none ↦ none
  | some m' ↦ metadata_from m' settings
]

-- A digit of a revision.
abbrev pub is_hexadecimal : ℕ → Bool
is_hexadecimal c = (leb b'0' c && leb c b'9') || (leb b'a' c && leb c b'f')

-- `gitObjectID`
unfoldable pub git_object_id : Bytes → Bool
git_object_id value = (length value == 40 || length value == 64) && all is_hexadecimal value

-- `sourceIdentity`; `none` stands for the text `unavailable`.
unfoldable pub source_identity : List Setting → Option Bytes
unfolding metadata_from git_object_id
source_identity settings = elim (metadata_from no_metadata settings) [
  | none ↦ none
  | some m ↦
      if not (equal m.vcs (codes "git")) || not (git_object_id m.revision) || not m.seen_modified
      then none
      else if m.modified
      then some (codes "dirty:" ++ m.revision)
      else some (codes "commit:" ++ m.revision)
]
