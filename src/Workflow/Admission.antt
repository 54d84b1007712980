-- ===== src/Workflow/Admission.antt =====
-- goverify/workflow.go: the admission of a path below a root that no link leads out of.
use verify.Prelude.{
  Bool, Bool-cases, List, [], arith, false, if◌then◌else◌, inl, inr, not, refl, same_bool, true,
  ◌&&◌, ◌||◌, ◌∷◌, ◌≡◌, ◌⊎◌,
}
use verify.Errors.{Error, Result, err, ok, proper, workflow_references, Error-cases}
use verify.Text.{Bytes, codes, equal, equal_iff, split_byte}
use verify.Source.{BoundedSource}
use verify.Workflow.Paths.{Filepath}

-- What is asked of an `fs.FileInfo` without following links.
pub record Entry : Type 0 where
  pub symlink : Bool
  pub directory : Bool
  pub regular : Bool

-- The files below the root: `Lstat` and `Open`. They stay as they are while they are inspected.
pub record Files : Type 0 where
  pub lstat : Bytes → Result Entry
  pub open_file : Bytes → Result BoundedSource

-- `validRootPathEntry`
unfoldable pub valid_root_path_entry : Entry → Bool → Bool → Bool
valid_root_path_entry information last directory =
    if information.symlink
    then false
    else if not last
    then information.directory
    else same_bool information.directory directory && (directory || information.regular)

-- The error of the look at one entry.
unfoldable pub entry_error : Result Entry → Bool → Bool → Error
unfolding valid_root_path_entry
entry_error (err e) last directory = e
entry_error (ok information) last directory =
    if not (valid_root_path_entry information last directory) then workflow_references ∷ [] else []

abbrev pub is_last : List Bytes → Bool
is_last [] = true
is_last (component ∷ components) = false

-- The loop of `admitRootPathWith`, over the components behind `current`. An `err` of `lstat` has an
-- error that is not nil.
unfoldable pub admit_from : Filepath → Files → Bool → Bytes → List Bytes → Error
unfolding entry_error
admit_from f files directory current [] = []
admit_from f files directory current (component ∷ components) =
    let joined = Filepath.join f current component in
    let rest = admit_from f files directory joined components in
    if equal component [] || equal component (codes ".") || equal component (codes "..")
    then workflow_references ∷ []
    else elim (entry_error (Files.lstat files joined) (is_last components) directory) [
      | [] ↦ rest
      | c ∷ cs ↦ c ∷ cs
    ]

-- `admitRootPath`
unfoldable pub admit_root_path : Filepath → Files → Bytes → Bool → Error
unfolding admit_from
admit_root_path f files relative directory =
    if equal relative (codes ".")
    then entry_error (Files.lstat files (codes ".")) true directory
    else admit_from f files directory [] (split_byte relative (Filepath.separator f))

-- An entry that is no link: a directory on the way, and at the end a directory or a regular file, as
-- was asked for.
abbrev pub IsPlainEntry : Files → Bytes → Bool → Bool → Type 0
IsPlainEntry files path last directory =
    (information : Entry) × (Files.lstat files path ≡ ok information)
    × (information.symlink ≡ false)
    × (information.directory ≡ (not last || directory))
    × ((information.directory || information.regular) ≡ true)

-- The entry that a path leads to, and every entry on the way to it, is no link.
abbrev pub IsPlain : Filepath → Files → Bool → Bytes → List Bytes → Type 0
IsPlain f files directory current [] = Unit
IsPlain f files directory current (component ∷ components) =
    (equal component (codes "..") ≡ false)
    × IsPlainEntry files (Filepath.join f current component) (is_last components) directory
    × IsPlain f files directory (Filepath.join f current component) components

entry_error-nil :
    (files : Files) (path : Bytes) (last directory : Bool) (r : Result Entry)
    → Files.lstat files path ≡ r
    → proper r ≡ true
    → entry_error r last directory ≡ []
    → IsPlainEntry files path last directory
unfolding entry_error valid_root_path_entry
entry_error-nil files path last directory (err []) e p h = absurd (ground arith)
entry_error-nil files path last directory (err (c ∷ cs)) e p h = absurd (ground arith)
entry_error-nil files path last directory (ok information) e p h =
    (information, e, ground arith, ground arith, ground arith)

admit_from-IsPlain :
    (f : Filepath) (files : Files) (directory : Bool) (current : Bytes) (components : List Bytes)
    → ((path : Bytes) → proper (Files.lstat files path) ≡ true)
    → admit_from f files directory current components ≡ []
    → IsPlain f files directory current components
unfolding admit_from
admit_from-IsPlain f files directory current [] k h = tt
admit_from-IsPlain f files directory current (component ∷ components) k h =
    let joined = Filepath.join f current component in
    let r = Files.lstat files joined in
    elim (Error-cases (entry_error r (is_last components) directory)) [
      | inr (c, cs, e) ↦ absurd (ground arith)
      | inl e ↦ (
        ground arith,
        entry_error-nil files joined (is_last components) directory r refl (k joined) e,
        admit_from-IsPlain f files directory joined components k (ground arith),
      )
    ]

-- A path that `admitRootPath` admits stays below the root. It is `.`, and the root is then the
-- directory asked for; or none of its components goes up, every entry on the way is a directory, the
-- entry it leads to is a directory or a regular file as was asked for, and none is a symbolic link. An
-- error of `Lstat` is not nil.
pub admit_root_path-IsPlain :
    (f : Filepath) (files : Files) (relative : Bytes) (directory : Bool)
    → ((path : Bytes) → proper (Files.lstat files path) ≡ true)
    → admit_root_path f files relative directory ≡ []
    → ((relative ≡ codes ".") × IsPlainEntry files (codes ".") true directory)
      ⊎ IsPlain f files directory [] (split_byte relative (Filepath.separator f))
unfolding admit_root_path
admit_root_path-IsPlain f files relative directory k h =
    elim (Bool-cases (equal relative (codes "."))) [
      | inl here ↦ inl (
        (equal_iff relative (codes ".")).0 here,
        entry_error-nil files (codes ".") true directory _ refl (k (codes ".")) (rw here at h),
      )
      | inr named ↦ inr (
          admit_from-IsPlain f files directory [] (split_byte relative (Filepath.separator f)) k
            (rw named at h))
    ]
