-- ===== src/Plan.antt =====
-- verify.go and validate.go: verification plans and their admission. The platform (paths, symbolic
-- links, files) and the caller's cancellation are parameters.
pub mod Names
pub mod Strings
pub mod Aggregate
pub mod Admit
pub mod Whole
use verify.Prelude.{Bool, List, Option, length, none, some, ℕ, ℤ, ◌*◌, ◌^◌}
use verify.Text.{Bytes}

-- The limits of verify.go; durations in nanoseconds.
abbrev pub max_profiles : ℕ
max_profiles = 32

abbrev pub max_controls : ℕ
max_controls = 2 * 2 ^ 10

abbrev pub max_plan_controls : ℕ
max_plan_controls = 8 * 2 ^ 10

abbrev pub max_plan_bytes : ℕ
max_plan_bytes = 64 * 2 ^ 20

abbrev pub max_arguments : ℕ
max_arguments = 256

abbrev pub max_argument_bytes : ℕ
max_argument_bytes = 8 * 2 ^ 10

abbrev pub max_environment : ℕ
max_environment = 128

abbrev pub max_environment_bytes : ℕ
max_environment_bytes = 16 * 2 ^ 10

abbrev pub max_path_bytes : ℕ
max_path_bytes = 4 * 2 ^ 10

abbrev pub max_input_bytes : ℕ
max_input_bytes = 2 ^ 20

abbrev pub max_expected_bytes : ℕ
max_expected_bytes = 2 ^ 20

abbrev pub max_output_bytes : ℕ
max_output_bytes = 16 * 2 ^ 20

abbrev pub max_timeout : ℕ
max_timeout = 30 * 60 * 10 ^ 9

-- `ExpectedStdout` and `ExpectedStderr` are nil or hold bytes.
pub record Command : Type 0 where
  pub executable : Bytes
  pub arguments : List Bytes
  pub directory : Bytes
  pub environment : List Bytes
  pub input : Bytes
  pub timeout : ℤ
  pub output_limit : ℤ
  pub show_success_output : Bool
  pub expected_stdout : Option Bytes
  pub expected_stderr : Option Bytes

pub record Control : Type 0 where
  pub id : Bytes
  pub name : Bytes
  pub command : Command

pub record Profile : Type 0 where
  pub id : Bytes
  pub controls : List Control

pub record Plan : Type 0 where
  pub id : Bytes
  pub profiles : List Profile

-- `len` of a slice that may be nil.
abbrev pub size : Option Bytes → ℕ
size none = 0
size (some v) = length v
