-- ===== src/Coverage.antt =====
-- goverify/coverage.go: the rows of an atomic coverage profile.
pub mod Rows
pub mod Profile
use verify.Prelude.{
  Bool, Option, [], all, false, if◌then◌else◌, ltb, none, not, some, ℕ, ◌&&◌, ◌*◌, ◌+◌, ◌-◌, ◌/◌,
  ◌==◌, ◌^◌, ◌||◌, ◌∷◌,
}
use verify.Text.{Bytes, cut_byte, cut_last, equal}
use verify.Text.Utf8.{Unicode, runes, valid_string}
use verify.Errors.{Result, ok, err, coverage_profile}
use verify.Decimal.{max_uint64, positive_decimal, unsigned_decimal}

abbrev pub max_coverage_bytes : ℕ
max_coverage_bytes = 64 * 2 ^ 20

abbrev pub max_coverage_line_bytes : ℕ
max_coverage_line_bytes = 64 * 2 ^ 10

abbrev pub max_coverage_rows : ℕ
max_coverage_rows = max_coverage_bytes / 14

pub record Coverage : Type 0 where
  pub rows : ℕ
  pub statements : ℕ
  pub covered : ℕ

-- The totals of a `coverageReader`: `result` and `firstUncovered`.
pub record Totals : Type 0 where
  pub result : Coverage
  pub first_uncovered : Bytes

-- The last byte `c` with something on each side of it: an index that is neither at most 0 nor the
-- last one.
unfoldable pub cut_inside : Bytes → ℕ → Option (Bytes × Bytes)
cut_inside value c = elim (cut_last value c) [
  | some (b ∷ before, a ∷ after) ↦ some (b ∷ before, a ∷ after)
  | _ ↦ none
]

-- `coverageFields`: the identity, the statements and the count.
unfoldable pub coverage_fields : Bytes → Option (Bytes × Bytes × Bytes)
unfolding cut_inside
coverage_fields line = elim (cut_inside line b' ') [
  | none ↦ none
  | some (before, count) ↦ elim (cut_inside before b' ') [
    | none ↦ none
    | some (identity, statements) ↦ some (identity, statements, count)
  ]
]

-- `decimalPrefix`: a positive numeral up to the first separator, and what follows it.
unfoldable pub decimal_prefix : Bytes → ℕ → Option (ℕ × Bytes)
decimal_prefix value separator = elim (cut_byte value separator) [
  | some (b ∷ before, a ∷ after) ↦ elim (positive_decimal (b ∷ before)) [
    | none ↦ none
    | some n ↦ some (n, a ∷ after)
  ]
  | _ ↦ none
]

-- `line.column,line.column`, each positive.
unfoldable pub valid_position : Bytes → Bool
valid_position position = elim (decimal_prefix position b'.') [
  | none ↦ false
  | some (start_line, r1) ↦ elim (decimal_prefix r1 b',') [
    | none ↦ false
    | some (start_column, r2) ↦ elim (decimal_prefix r2 b'.') [
      | none ↦ false
      | some (end_line, r3) ↦ elim (positive_decimal r3) [
        | none ↦ false
        | some end_column ↦
            not (start_line == 0)
            && not (start_column == 0)
            && not (end_line == 0)
            && not (end_column == 0)
      ]
    ]
  ]
]

module _ (u : Unicode) where
  -- `validCoveragePath`
  pub valid_coverage_path : Bytes → Bool
  valid_coverage_path [] = false
  valid_coverage_path (x ∷ xs) =
      valid_string (x ∷ xs) && all (λ d. Unicode.is_print u d.0) (runes (x ∷ xs))

  -- `validCoverageIdentity`
  unfoldable pub valid_coverage_identity : Bytes → Bool
  unfolding valid_coverage_path cut_inside
  valid_coverage_identity value = elim (cut_inside value b':') [
    | none ↦ false
    | some (path, position) ↦ valid_coverage_path path && valid_position position
  ]

  -- The part of `add` behind the statements: the count, and the new totals.
  pub add_counted : Totals → Bytes → ℕ → Option ℕ → Result Totals
  add_counted owner identity statements none = err (coverage_profile ∷ [])
  add_counted owner identity statements (some count) =
      let r = owner.result in
      ok (record {
        result = record {
          rows = r.rows + 1;
          statements = r.statements + statements;
          covered = if not (count == 0) then r.covered + statements else r.covered;
        };
        first_uncovered =
            if count == 0 && not (statements == 0) && equal owner.first_uncovered []
            then identity
            else owner.first_uncovered;
      })

  pub add_statements : Totals → Bytes → Option ℕ → Bytes → Result Totals
  add_statements owner identity none count_text = err (coverage_profile ∷ [])
  add_statements owner identity (some statements) count_text =
      if ltb (max_uint64 - owner.result.statements) statements
      then err (coverage_profile ∷ [])
      else add_counted owner identity statements (unsigned_decimal count_text)

  pub add_fields : Totals → Option (Bytes × Bytes × Bytes) → Result Totals
  add_fields owner none = err (coverage_profile ∷ [])
  add_fields owner (some (identity, statement_text, count_text)) =
      if not (valid_coverage_identity identity) || owner.result.rows == max_coverage_rows
      then err (coverage_profile ∷ [])
      else add_statements owner identity (unsigned_decimal statement_text) count_text

  -- `coverageReader.add`
  unfoldable pub add : Totals → Bytes → Result Totals
  unfolding add_fields add_statements add_counted
  add owner line = add_fields owner (coverage_fields line)
