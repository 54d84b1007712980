-- ===== src/Coverage/Profile.antt =====
-- goverify/coverage.go: the lines of a profile, and `CheckCoverage`. The `bufio.Reader` is the stream
-- of what the calls of its `ReadSlice` return, one after the other, for as long as it is asked.
pub mod Complete
pub mod Ends
pub mod Counted
pub mod Loop
pub mod Accepted
use verify.Prelude.{
  Bool, Option, [], false, if◌then◌else◌, length, ltb, none, not, some, suc, true, zero, ℕ, ◌++◌,
  ◌+◌, ◌==◌, ◌||◌, ◌∷◌,
}
use verify.Text.{Bytes, codes, equal}
use verify.Text.Utf8.{Unicode}
use verify.Errors.{
  Error, Result, ok, err, is, coverage_profile, incomplete_coverage, end_of_file, buffer_full,
}
use verify.Coverage.{Coverage, Totals, add, max_coverage_bytes, max_coverage_line_bytes}

pub record Fragment : Type 0 where
  pub bytes : Bytes
  pub error : Error

-- What call after call of `ReadSlice` returns.
abbrev pub Stream : Type 0
Stream = ℕ → Fragment

-- The calls behind the first one.
abbrev pub tail : Stream → Stream
tail reader = λ n. reader (n + 1)

-- The fields of a `coverageReader`.
pub record Owner : Type 0 where
  pub reader : Stream
  pub bytes : ℕ
  pub totals : Totals

-- `line[:len(line)-1]`, if the last byte is a line feed.
pub chomp : Bytes → Option Bytes
chomp [] = none
chomp (x ∷ xs) = elim xs [
  | [] ↦ if x == b'\n' then some [] else none
  | _ ∷ _ ↦ elim (chomp xs) [ none ↦ none | some line ↦ some (x ∷ line) ]
]

-- The checks behind one `ReadSlice`, by its error; `none` goes on with the loop.
pub judge : Bytes → Error → Option (Result Bytes)
judge line error =
    if is error buffer_full
    then none
    else if is error end_of_file
    then some (elim line [ [] ↦ err (end_of_file ∷ []) | _ ∷ _ ↦ err (coverage_profile ∷ []) ])
    else elim error [
      | [] ↦ elim (chomp line) [
        | none ↦ some (err (coverage_profile ∷ []))
        | some whole ↦ some (ok whole)
      ]
      | c ∷ cs ↦ some (err (coverage_profile ∷ c ∷ cs))
    ]

-- The result of `line`, with the bytes counted and what is left of the reader.
abbrev pub Read : Type 0
Read = Result Bytes × ℕ × Stream

pub too_long : ℕ → Bytes → Bytes → Bool
too_long total line fragment =
    ltb max_coverage_bytes total || ltb max_coverage_line_bytes (length line + length fragment)

-- `coverageReader.line` on fuel, from the part of the line read so far; `none` means that the fuel ran
-- out.
pub line_from : ℕ → ℕ → Bytes → Stream → Option Read
unfolding too_long judge chomp
line_from zero total line reader = none
line_from (suc fuel) total line reader =
    let f = reader 0 in
    let counted = total + length f.bytes in
    elim (too_long counted line f.bytes) [
      | true ↦ some (err (coverage_profile ∷ []), counted, tail reader)
      | false ↦ elim (judge (line ++ f.bytes) f.error) [
        | none ↦ line_from fuel counted (line ++ f.bytes) (tail reader)
        | some r ↦ some (r, counted, tail reader)
      ]
    ]

-- One for each byte that may be counted: a call that a line goes on behind fills the buffer, and a line
-- has at least its line feed.
abbrev pub read_fuel : ℕ
read_fuel = max_coverage_bytes + 1

abbrev pub no_coverage : Coverage
no_coverage = record { rows = 0; statements = 0; covered = 0 }

abbrev pub no_totals : Totals
no_totals = record { result = no_coverage; first_uncovered = [] }

-- The checks behind the loop.
pub conclude : Result Owner → Coverage × Error
conclude (err e) = (no_coverage, e)
conclude (ok owner) =
    let result = owner.totals.result in
    if result.rows == 0 || result.statements == 0
    then (no_coverage, coverage_profile ∷ [])
    else if not (result.covered == result.statements)
    then (result, incomplete_coverage ∷ [])
    else (result, [])

pub finished : Option (Result Owner) → Option (Coverage × Error)
unfolding conclude
finished none = none
finished (some r) = some (conclude r)

-- One turn of the loop of `CheckCoverage` leaves the loop, or goes on.
pub data Turn : Type 0 where
  stop : Result Owner → Turn
  go : Owner → Turn

module _ (u : Unicode) where
  pub added : ℕ → Stream → Result Totals → Turn
  added total rest (err e) = stop (err e)
  added total rest (ok totals) = go (record { reader = rest; bytes = total; totals = totals })

  pub turned : Owner → Read → Turn
  unfolding added
  turned owner (err e, total, rest) = stop (
      if is e end_of_file
      then ok (record { reader = rest; bytes = total; totals = owner.totals })
      else err (coverage_profile ∷ e))
  turned owner (ok line, total, rest) = added total rest (add u owner.totals line)

  -- A turn that goes on behind a line; `none` means that the fuel ran out.
  pub turn_from : Owner → Option Turn
  unfolding line_from turned
  turn_from owner = elim (line_from read_fuel owner.bytes [] owner.reader) [
    | none ↦ none
    | some read ↦ some (turned owner read)
  ]

  -- The loop on fuel; `none` means that the fuel ran out.
  unfoldable pub rows_from : ℕ → Owner → Option (Result Owner)
  unfolding turn_from
  rows_from zero owner = none
  rows_from (suc fuel) owner = elim (turn_from owner) [
    | none ↦ none
    | some turn ↦ elim turn [ stop r ↦ some r | go o ↦ rows_from fuel o ]
  ]

  -- Behind the first line.
  pub check_mode : Read → Option (Coverage × Error)
  unfolding finished
  check_mode (err e, total, rest) = some (no_coverage, coverage_profile ∷ e)
  check_mode (ok line, total, rest) = elim (equal line (codes "mode: atomic")) [
    | true ↦
        finished (rows_from read_fuel (record { reader = rest; bytes = total; totals = no_totals }))
    | false ↦ some (no_coverage, coverage_profile ∷ [])
  ]

  -- `CheckCoverage`, on a reader that is not nil.
  unfoldable pub check_coverage : Stream → Option (Coverage × Error)
  unfolding line_from check_mode
  check_coverage reader = elim (line_from read_fuel 0 [] reader) [
    | none ↦ none
    | some read ↦ check_mode read
  ]
