-- ===== src/Plan/Admit.antt =====
-- validate.go: the admission of plans. An admitted plan is a copy, with canonical executables and
-- directories. The caches of canonical paths are passed along;
-- on an error they are dropped with the plan.
pub mod Limits
use verify.Prelude.{
  Bool, List, Option, [], at_most, false, if◌then◌else◌, leb, length, ltb, none, not,
  positive_within, some, true, ℕ, ◌&&◌, ◌++◌, ◌+◌, ◌||◌, ◌∷◌,
}
use verify.Text.{Bytes, codes, equal, has_prefix}
use verify.Text.Utf8.{Unicode}
use verify.Errors.{Result, err, invalid_plan, ok, other, ◌>>=◌}
use verify.Plan.{
  Command, Control, max_arguments, max_environment, max_expected_bytes, max_input_bytes,
  max_output_bytes, max_path_bytes, max_timeout, size,
}
use verify.Plan.Names.{display_text, valid_identifier}
use verify.Plan.Strings.{bounded_strings}

-- What admission asks of the platform: `path/filepath`, `os.Stat`, `filepath.EvalSymlinks` and
-- `os.OpenRoot`. A test of a file is an error, or whether the file is of the kind asked for.
pub record Platform : Type 0 where
  pub separator : ℕ
  pub is_abs : Bytes → Bool
  pub clean : Bytes → Bytes
  pub from_slash : Bytes → Bytes
  pub join : Bytes → Bytes → Bytes
  pub eval_symlinks : Bytes → Result Bytes
  pub is_regular : Bytes → Result Bool
  pub is_directory : Bytes → Result Bool
  -- `Stat` through a root that is opened and closed again.
  pub is_directory_in : Bytes → Bytes → Result Bool

-- A map from strings to strings; an entry hides those behind it.
abbrev pub Cache : Type 0
Cache = List (Bytes × Bytes)

unfoldable pub lookup : Bytes → Cache → Option Bytes
lookup k [] = none
lookup k ((j, v) ∷ m) = if equal j k then some v else lookup k m

unfoldable pub member : Bytes → List Bytes → Bool
member k [] = false
member k (j ∷ js) = equal j k || member k js

-- `validCommandResources` and `validCommandExpectedOutput`
unfoldable pub valid_command_resources : Command → Bool
valid_command_resources c =
    positive_within max_timeout c.timeout
    && positive_within max_output_bytes c.output_limit
    && leb (length c.arguments) max_arguments
    && leb (length c.environment) max_environment
    && leb (length c.input) max_input_bytes

unfoldable pub valid_command_expected_output : Command → Bool
valid_command_expected_output c =
    at_most (size c.expected_stdout) c.output_limit
    && at_most (size c.expected_stderr) c.output_limit
    && leb (size c.expected_stderr) max_expected_bytes
    && leb (size c.expected_stdout + size c.expected_stderr) max_expected_bytes

-- The maps `executables` and `directories`.
pub record Caches : Type 0 where
  pub executables : Cache
  pub directories : Cache

module _ (p : Platform) (u : Unicode) where
  open p use {
    separator, is_abs, clean, from_slash, join, eval_symlinks, is_regular, is_directory,
    is_directory_in,
  }

  -- `validCommandPath`
  unfoldable pub valid_command_path : Command → Bool
  valid_command_path c =
      is_abs c.executable
      && equal c.executable (clean c.executable)
      && leb (length c.executable) max_path_bytes

  -- `validCommandBounds`
  unfoldable pub valid_command_bounds : Command → Bool
  unfolding valid_command_path valid_command_resources valid_command_expected_output
  valid_command_bounds c =
      valid_command_path c && valid_command_resources c && valid_command_expected_output c

  -- `canonicalExecutableWith`
  unfoldable pub canonical_executable : Bytes → Result Bytes
  canonical_executable path = do
    evaluated ← eval_symlinks path
    let resolved = clean evaluated
    regular ← is_regular resolved
    (if not regular || not (is_abs resolved) || ltb max_path_bytes (length resolved)
        then err (other 0 ∷ [])
        else ok resolved)

  -- The executable of a command, through the cache.
  unfoldable pub executable_cached : Bytes → Cache → Result (Bytes × Cache)
  unfolding lookup canonical_executable
  executable_cached path executables = elim (lookup path executables) [
    | some found ↦ ok (found, executables)
    | none ↦ elim (canonical_executable path) [
      | err e ↦ err (invalid_plan ∷ e)
      | ok resolved ↦ ok (resolved, (path, resolved) ∷ executables)
    ]
  ]

  -- The tests on a directory in the notation of the platform.
  unfoldable pub escapes : Bytes → Bool
  escapes native =
      is_abs native
      || not (equal native (clean native))
      || equal native (codes ".")
      || equal native (codes "..")
      || has_prefix native (codes ".." ++ separator ∷ [])
      || ltb max_path_bytes (length native)

  -- `admittedDirectoryCached`
  unfoldable pub admitted_directory_cached : Bytes → Bytes → Cache → Result (Bytes × Cache)
  unfolding escapes
  admitted_directory_cached root directory admitted = elim (lookup directory admitted) [
    | some found ↦ ok (found, admitted)
    | none ↦
        if escapes (from_slash directory)
        then err (invalid_plan ∷ [])
        else elim (is_directory_in root (from_slash directory)) [
          | err e ↦ err (invalid_plan ∷ e)
          | ok false ↦ err (invalid_plan ∷ [])
          | ok true ↦ ok (
            join root (from_slash directory),
            (directory, join root (from_slash directory)) ∷ admitted,
          )
        ]
  ]

  -- `admitCommand`
  unfoldable pub admit_command : Bytes → Command → Caches → Result (Command × Caches)
  unfolding valid_command_bounds executable_cached admitted_directory_cached
  admit_command root c caches =
      if not (valid_command_bounds c) then err (invalid_plan ∷ []) else (do
        (executable, executables) ← executable_cached c.executable caches.executables
        (directory, directories) ← admitted_directory_cached root c.directory caches.directories
        arguments ← bounded_strings c.arguments false
        environment ← bounded_strings c.environment true
        ok (
          record c {
            executable = executable;
            arguments = arguments;
            directory = directory;
            environment = environment;
          },
          record { executables = executables; directories = directories },
        ))

  -- `admitControl`, with the identifiers that the profile has used.
  unfoldable pub admit_control :
      Bytes → Control → List Bytes → Caches → Result (Control × List Bytes × Caches)
  admit_control root control controls caches =
      if not (valid_identifier control.id)
        || member control.id controls
        || not (display_text u control.name)
      then err (invalid_plan ∷ [])
      else (do
        (command, caches') ← admit_command root control.command caches
        ok (record control { command = command }, control.id ∷ controls, caches'))
