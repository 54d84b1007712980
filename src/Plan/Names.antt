-- ===== src/Plan/Names.antt =====
-- validate.go: identifiers, display names and the names of environment variables.
use verify.Prelude.{
  All, Bool, List, [], all, arith, false, if◌then◌else◌, leb, length, ltb, map, not, refl, true, ℕ,
  ◌&&◌, ◌+◌, ◌==◌, ◌||◌, ◌↔◌, ◌∷◌, ◌≡◌, ◌≤◌, ◌⊎◌,
}
use verify.Text.{Bytes, equal}
use verify.Text.Utf8.{Unicode, runes, valid_string}

abbrev pub max_identifier_bytes : ℕ
max_identifier_bytes = 64

abbrev pub max_display_bytes : ℕ
max_display_bytes = 128

abbrev between : ℕ → ℕ → ℕ → Bool
between lo hi c = leb lo c && leb c hi

-- The tests of the loop of `validIdentifier`, on the bytes behind the first.
pub identifier_rest : Bytes → Bool
identifier_rest [] = true
identifier_rest (c ∷ cs) =
    let rest = identifier_rest cs in
    if (ltb c b'a' || ltb b'z' c)
      && (ltb c b'0' || ltb b'9' c)
      && not (c == b'_')
      && not (c == b'-')
    then false
    else rest

-- `validIdentifier`
unfoldable pub valid_identifier : Bytes → Bool
unfolding identifier_rest
valid_identifier [] = false
valid_identifier (c ∷ cs) =
    not (ltb max_identifier_bytes (length (c ∷ cs)) || ltb c b'a' || ltb b'z' c)
    && identifier_rest cs

-- `environmentNameStart`
pub environment_name_start : ℕ → Bool
environment_name_start c = c == b'_' || between b'A' b'Z' c || between b'a' b'z' c

-- `environmentNamePart`
pub environment_name_part : ℕ → Bool
unfolding environment_name_start
environment_name_part c = environment_name_start c || between b'0' b'9' c

-- `validEnvironmentName`
unfoldable pub valid_environment_name : Bytes → Bool
unfolding environment_name_start environment_name_part
valid_environment_name [] = false
valid_environment_name (c ∷ cs) = environment_name_start c && all environment_name_part cs

abbrev lower : ℕ → ℕ
lower c = if between b'A' b'Z' c then c + 32 else c

-- `strings.EqualFold`, on the ASCII names that `validEnvironmentName` admits.
unfoldable pub equal_fold : Bytes → Bytes → Bool
unfolding equal
equal_fold a b = equal (map lower a) (map lower b)

-- `duplicateEnvironmentName`
unfoldable pub duplicate_environment_name : List Bytes → Bytes → Bool
duplicate_environment_name [] name = false
duplicate_environment_name (value ∷ previous) name =
    equal_fold value name || duplicate_environment_name previous name

-- `displayText`
unfoldable pub display_text : Unicode → Bytes → Bool
display_text u [] = false
display_text u (c ∷ cs) =
    leb (length (c ∷ cs)) max_display_bytes
    && valid_string (c ∷ cs)
    && all (λ d. Unicode.is_print u d.0) (runes (c ∷ cs))

-- A byte of an identifier: a lower-case letter, or behind the first a digit, `_` or `-` too.
abbrev IsIdentifierByte : ℕ → Type 0
IsIdentifierByte c = ((b'a' ≤ c) × (c ≤ b'z')) ⊎ ((b'0' ≤ c) × (c ≤ b'9')) ⊎ (c ≡ b'_') ⊎ (c ≡ b'-')

-- The identifiers: `[a-z][a-z0-9_-]*`, of at most 64 bytes.
abbrev pub IsIdentifier : Bytes → Type 0
IsIdentifier [] = ⊥
IsIdentifier (c ∷ cs) =
    (length (c ∷ cs) ≤ max_identifier_bytes) × (b'a' ≤ c) × (c ≤ b'z') × All IsIdentifierByte cs

identifier_rest_iff : (cs : Bytes) → (identifier_rest cs ≡ true) ↔ All IsIdentifierByte cs
unfolding identifier_rest
identifier_rest_iff [] = (λ _. tt, λ _. refl)
identifier_rest_iff (c ∷ cs) = (
  λ h. (ground arith, (identifier_rest_iff cs).0 (ground arith)),
  λ h. ground (arith, (identifier_rest_iff cs).1 h.1),
)

-- `validIdentifier` admits exactly the identifiers.
pub valid_identifier_iff : (v : Bytes) → (valid_identifier v ≡ true) ↔ IsIdentifier v
unfolding valid_identifier
valid_identifier_iff [] = (λ h. cc, λ h. absurd h)
valid_identifier_iff (c ∷ cs) = (
  λ h. (ground arith, ground arith, ground arith, (identifier_rest_iff cs).0 (ground arith)),
  λ h. ground (arith, (identifier_rest_iff cs).1 h.3),
)
