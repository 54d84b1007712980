-- ===== src/Workflow/Paths.antt =====
-- goverify/workflow.go and goverify/fuzz.go: the texts and the paths in references. What package
-- path/filepath does is a parameter, as it differs between systems.
use verify.Prelude.{
  Bool, Option, [], all, any, if◌then◌else◌, length, ltb, none, not, some, suc, ℕ, ◌&&◌, ◌*◌, ◌++◌,
  ◌==◌, ◌^◌, ◌||◌, ◌∷◌,
}
use verify.Text.{Bytes, codes, cut_prefix, equal, has_prefix}
use verify.Text.Utf8.{Unicode, runes, valid_string}

-- `path/filepath`: the separator, and its functions of the same names.
pub record Filepath : Type 0 where
  pub separator : ℕ
  pub is_abs : Bytes → Bool
  pub clean : Bytes → Bytes
  pub from_slash : Bytes → Bytes
  pub to_slash : Bytes → Bytes
  pub join : Bytes → Bytes → Bytes

-- `MaxFuzzPathBytes`
abbrev pub max_fuzz_path_bytes : ℕ
max_fuzz_path_bytes = 4 * 2 ^ 10

-- `MaxWorkflowPathComponents`
abbrev pub max_workflow_path_components : ℕ
max_workflow_path_components = 64

-- `validFuzzText`
unfoldable pub valid_fuzz_text : Unicode → Bytes → Bool
valid_fuzz_text u value =
    not (equal value [] || not (valid_string value) || any (λ c. c == 0) value)
    && all (λ d. Unicode.is_print u d.0) (runes value)

-- `validRelativeDirectory`
unfoldable pub valid_relative_directory : Filepath → Bytes → Bool
valid_relative_directory f directory =
    equal directory (codes ".")
    || (not (equal directory [])
        && not (Filepath.is_abs f directory)
        && equal directory (Filepath.clean f directory)
        && not (equal directory (codes ".."))
        && not (has_prefix directory (codes ".." ++ Filepath.separator f ∷ [])))

-- `strings.Count`, of a byte.
unfoldable pub count_byte : Bytes → ℕ → ℕ
count_byte [] c = 0
count_byte (x ∷ xs) c = let rest = count_byte xs c in if x == c then suc rest else rest

-- `validWorkflowPathComponents`
unfoldable pub valid_workflow_path_components : Filepath → Bytes → Bool
unfolding count_byte
valid_workflow_path_components f value =
    ltb (count_byte (Filepath.to_slash f value) b'/') max_workflow_path_components

-- `strings.ContainsAny(value, "@\\")`
abbrev pub contains_at_or_backslash : Bytes → Bool
contains_at_or_backslash value = any (λ c. c == b'@' || c == b'\\') value

-- `localActionDirectory`; `none` is "not found".
unfoldable pub local_action_directory : Unicode → Filepath → Bytes → Option Bytes
local_action_directory u f value = elim (cut_prefix value (codes "./")) [
  | none ↦ none
  | some local ↦
      if ltb max_fuzz_path_bytes (length value)
        || not (valid_fuzz_text u value)
        || not (valid_workflow_path_components f value)
        || contains_at_or_backslash value
      then none
      else if equal local []
      then some (codes ".")
      else if valid_relative_directory f (Filepath.from_slash f local)
      then some local
      else none
]
