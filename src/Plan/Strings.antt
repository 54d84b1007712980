-- ===== src/Plan/Strings.antt =====
-- validate.go: `boundedStrings`, on arguments and on environments.
use verify.Prelude.{
  Bool, List, Option, Option-cases, [], any, arith, false, if◌then◌else◌, inl, inr, length, ltb,
  none, not, some, true, ℕ, ◌++◌, ◌+◌, ◌==◌, ◌||◌, ◌∷◌, ◌≡◌, All, Bool-cases, ◌≤◌,
}
use verify.Text.{Bytes, cut_byte, cut_byte-append}
use verify.Text.Utf8.{valid_string}
use verify.Errors.{Result, err, invalid_plan, ok, ◌>>=◌, >>=-eq-ok}
use verify.Plan.{max_argument_bytes, max_environment_bytes}
use verify.Plan.Names.{duplicate_environment_name, valid_environment_name}

abbrev pub invalid_text : Bytes → Bool
invalid_text value = not (valid_string value) || any (λ c. c == 0) value

-- The name of an environment entry, if it is valid and new: `strings.Cut(value, "=")`.
pub entry_name : List Bytes → Bytes → Option Bytes
entry_name previous value = elim (cut_byte value b'=') [
  | none ↦ none
  | some (name, _) ↦
      if not (valid_environment_name name) || duplicate_environment_name previous name
      then none
      else some name
]

-- The loop of `boundedStrings`, from the bytes and the names seen so far. `len(value) >
-- maximum-total` is a sum here, as Go's integers are signed.
unfoldable pub bounded_from : Bool → ℕ → ℕ → List Bytes → List Bytes → Result (List Bytes)
unfolding entry_name
bounded_from environment maximum total names [] = ok []
bounded_from environment maximum total names (value ∷ values) =
    let plain = bounded_from environment maximum (total + length value) names values in
    if invalid_text value
    then err (invalid_plan ∷ [])
    else if ltb maximum (total + length value)
    then err (invalid_plan ∷ [])
    else if environment
    then elim (entry_name names value) [
      | none ↦ err (invalid_plan ∷ [])
      | some name ↦
          bounded_from environment maximum (total + length value) (names ++ name ∷ []) values
          >>= λ rest. ok (value ∷ rest)
    ]
    else (plain >>= λ rest. ok (value ∷ rest))

-- `boundedStrings`
unfoldable pub bounded_strings : List Bytes → Bool → Result (List Bytes)
unfolding bounded_from
bounded_strings values environment =
    bounded_from environment (if environment then max_environment_bytes else max_argument_bytes) 0
      [] values

abbrev pub total_bytes : List Bytes → ℕ
total_bytes [] = 0
total_bytes (v ∷ vs) = length v + total_bytes vs

-- What holds of the entries of an environment behind `names`.
abbrev pub Entries : List Bytes → List Bytes → Type 0
Entries names [] = Unit
Entries names (v ∷ vs) =
    (name : Bytes) × (value : Bytes) × (v ≡ name ++ b'=' ∷ value)
    × (valid_environment_name name ≡ true)
    × (duplicate_environment_name names name ≡ false)
    × Entries (names ++ name ∷ []) vs

-- What holds of the values behind `names`, if they are an environment.
abbrev pub EntriesOf : Bool → List Bytes → List Bytes → Type 0
EntriesOf false names values = Unit
EntriesOf true names values = Entries names values

entry_name-some :
    (names : List Bytes) (v : Bytes) {name : Bytes}
    → entry_name names v ≡ some name
    → (value : Bytes) × (v ≡ name ++ b'=' ∷ value)
      × (valid_environment_name name ≡ true)
      × (duplicate_environment_name names name ≡ false)
unfolding entry_name
entry_name-some names v {name} h = elim (Option-cases (cut_byte v b'=')) [
  | inl e ↦ absurd (ground arith)
  | inr ((n, value), e) ↦ (value, cut_byte-append v b'=' (ground arith), ground arith, ground arith)
]

-- What `boundedStrings` has checked of the values that it copies.
pub record IsBounded (environment : Bool) (maximum total : ℕ) (names values copy : List Bytes)
    : Type 0 where
  pub copied : copy ≡ values
  pub fits : total + total_bytes values ≤ maximum
  pub texts : All (λ v. invalid_text v ≡ false) values
  pub entries : EntriesOf environment names values

bounded_from-ok :
    (environment : Bool) (maximum total : ℕ) (names values : List Bytes) {copy : List Bytes}
    → total ≤ maximum
    → bounded_from environment maximum total names values ≡ ok copy
    → IsBounded environment maximum total names values copy
unfolding bounded_from
bounded_from-ok false maximum total names [] t h = record {
  copied = ground arith;
  fits = ground arith;
  texts = tt;
  entries = tt;
}
bounded_from-ok true maximum total names [] t h = record {
  copied = ground arith;
  fits = ground arith;
  texts = tt;
  entries = tt;
}
bounded_from-ok false maximum total names (v ∷ vs) t h = elim (Bool-cases (invalid_text v)) [
  | inl bad ↦ absurd (ground arith)
  | inr good ↦ elim (Bool-cases (ltb maximum (total + length v))) [
    | inl over ↦ absurd (ground arith)
    | inr fits ↦
        let (rest, e, same) =
          >>=-eq-ok (bounded_from false maximum (total + length v) names vs) (λ rest. ok (v ∷ rest))
            (rw (good, fits) at h) in
        let b = bounded_from-ok false maximum (total + length v) names vs (ground arith) e in
        record {
          copied = ground (arith, b.copied);
          fits = omega (arith, b.fits);
          texts = (good, b.texts);
          entries = tt;
        }
  ]
]
bounded_from-ok true maximum total names (v ∷ vs) {copy} t h = elim (Bool-cases (invalid_text v)) [
  | inl bad ↦ absurd (ground arith)
  | inr good ↦ elim (Bool-cases (ltb maximum (total + length v))) [
    | inl over ↦ absurd (ground arith)
    | inr fits ↦ elim (Option-cases (entry_name names v)) [
      | inl e ↦ absurd (ground arith)
      | inr (name, e) ↦
          let inside = bounded_from true maximum (total + length v) (names ++ name ∷ []) vs in
          let (rest, k, same) =
            >>=-eq-ok inside (λ rest. ok (v ∷ rest)) {last = copy} (ground arith) in
          let b =
            bounded_from-ok true maximum (total + length v) (names ++ name ∷ []) vs (ground arith)
              k in
          let (value, shape, valid, new) = entry_name-some names v e in
          record {
            copied = ground (arith, b.copied);
            fits = omega (arith, b.fits);
            texts = (good, b.texts);
            entries = (name, value, shape, valid, new, b.entries);
          }
    ]
  ]
]

-- What `boundedStrings` returns is a copy of the values. They are valid UTF-8 with no NUL, within the
-- limit together; those of an environment are `name=value`, with valid names that differ from one
-- another even when case is ignored.
pub bounded_strings-ok :
    (values : List Bytes) (environment : Bool) {copy : List Bytes}
    → bounded_strings values environment ≡ ok copy
    → IsBounded environment
        (if environment then max_environment_bytes else max_argument_bytes)
        0
        []
        values
        copy
unfolding bounded_strings
bounded_strings-ok values environment h = bounded_from-ok environment _ 0 [] values (omega arith) h
