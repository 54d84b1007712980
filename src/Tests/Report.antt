-- ===== src/Tests/Report.antt =====
-- Tests of goverify/coverage.go.
use verify.Prelude.{
  List, [], arith, if◌then◌else◌, leb, none, refl, some, suc, zero, ◌&&◌, ◌∷◌, ◌≡◌,
}
use verify.Text.{codes, cut_byte, cut_last, equal}
use verify.Text.Utf8.{valid_string}
use verify.Errors.{Error, buffer_full, end_of_file, is}
use verify.Decimal.{canonical_decimal, max_uint64, unsigned_decimal, positive_decimal}
use verify.Decimal.Value.{unsigned_decimal_lem, value_from}
use verify.Coverage.{
  Coverage, add, coverage_fields, decimal_prefix, valid_coverage_identity, valid_position,
}
use verify.Coverage.Rows.{IsSound, add-IsSound}
use verify.Coverage.Profile.{Fragment, Stream, check_coverage, no_totals, rows_from}
use verify.Coverage.Profile.Accepted.{IsAccepted, check_coverage-accepts}
use verify.Coverage.Profile.Ends.{check_coverage-ends}
use verify.Tests.{ascii}

unsigned_decimal_lem_example : unsigned_decimal (codes "18446744073709551616") ≡ (
    if canonical_decimal (codes "18446744073709551616")
      && leb (value_from 0 (codes "18446744073709551616")) max_uint64
    then some (value_from 0 (codes "18446744073709551616"))
    else none)
unsigned_decimal_lem_example = unsigned_decimal_lem (codes "18446744073709551616")

-- A reader that returns these fragments, and has then come to its end.
abbrev stream_of : List Fragment → Stream
stream_of [] n = record { bytes = []; error = end_of_file ∷ [] }
stream_of (f ∷ fs) zero = f
stream_of (f ∷ fs) (suc n) = stream_of fs n

-- The second line is cut in two by the buffer.
abbrev complete : Stream
complete = stream_of (
    record { bytes = codes "mode: atomic\n"; error = [] }
    ∷ record { bytes = codes "a.go:1.1,"; error = buffer_full ∷ [] }
    ∷ record { bytes = codes "2.2 3 1\n"; error = [] }
    ∷ [])

-- A reader that fills the buffer again and again.
abbrev unending : Stream
unending = λ n. record { bytes = codes "mode"; error = buffer_full ∷ [] }

abbrev three : Coverage
three = record { rows = 1; statements = 3; covered = 3 }

check_coverage-ends_example :
    (c : Coverage) × (e : Error) × (check_coverage ascii unending ≡ some (c, e))
check_coverage-ends_example = check_coverage-ends ascii unending (λ n full. omega arith)

check_coverage-accepts_example : IsAccepted ascii complete three
unfolding check_coverage is equal rows_from add coverage_fields cut_last valid_coverage_identity
    valid_string valid_position decimal_prefix cut_byte positive_decimal
check_coverage-accepts_example = check_coverage-accepts ascii complete refl

no_totals-IsSound : IsSound no_totals
no_totals-IsSound = record {
  rows_bound = omega arith;
  covered_bound = omega arith;
  statements_bound = omega arith;
  named = (λ _. refl, λ _. refl);
}

add-IsSound_example : IsSound (record { result = three; first_uncovered = [] })
unfolding add coverage_fields cut_last valid_coverage_identity valid_string valid_position
    decimal_prefix cut_byte positive_decimal equal
add-IsSound_example = add-IsSound ascii no_totals (codes "a.go:1.1,2.2 3 1") no_totals-IsSound refl
