-- ===== src/Exit/Identity.antt =====
-- cmd/secverify/execution.go: the text of the identity of an executable.
use verify.Prelude.{Bool, [], all, if◌then◌else◌, length, ltb, not, ℕ, ◌&&◌, ◌++◌, ◌||◌, ◌∷◌}
use verify.Errors.{Error, invocation}
use verify.Text.{Bytes, codes, equal}
use verify.Text.Utf8.{Unicode, runes}
use verify.ExactWrite.{Writer, bytes}

-- `maxIdentityTextBytes`
abbrev pub max_identity_text_bytes : ℕ
max_identity_text_bytes = 128

-- `developmentVersion`
abbrev pub development_version : Bytes
development_version = codes "development"

-- `executableIdentity`
pub record ExecutableIdentity : Type 0 where
  pub version : Bytes
  pub source : Bytes
  pub go_version : Bytes
  pub platform : Bytes

-- `displayIdentityText`
unfoldable pub display_identity_text : Unicode → Bytes → Bool
display_identity_text u value =
    not (equal value [] || ltb max_identity_text_bytes (length value))
    && all (λ d. Unicode.is_print u d.0) (runes value)

-- `validExecutableIdentity`
unfoldable pub valid_executable_identity : Unicode → ExecutableIdentity → Bool
unfolding display_identity_text
valid_executable_identity u identity =
    display_identity_text u identity.version
    && display_identity_text u identity.source
    && display_identity_text u identity.go_version
    && display_identity_text u identity.platform

-- `identityText`
unfoldable pub identity_text : ExecutableIdentity → Bytes
identity_text identity =
    (if not (equal identity.version development_version)
      then codes "secverify " ++ identity.version
      else codes "secverify")
    ++ codes " source="
    ++ identity.source
    ++ codes " go="
    ++ identity.go_version
    ++ codes " platform="
    ++ identity.platform
    ++ codes "\n"

-- `writeExecutionIdentity`, to an output that is not nil.
unfoldable pub write_execution_identity :
    (w : Writer) → Unicode → Writer.Sink w → ExecutableIdentity → Error × Writer.Sink w
unfolding valid_executable_identity identity_text
write_execution_identity w u s identity =
    if not (valid_executable_identity u identity)
    then (invocation ∷ [], s)
    else bytes w s (identity_text identity)
