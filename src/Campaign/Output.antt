-- ===== src/Campaign/Output.antt =====
-- goverify/campaign.go: the number of executions in the output of a fuzz run. A position in the output
-- is the part of it before that position. `time.ParseDuration` is a parameter, `none` for an error.
use verify.Prelude.{
  Bool, Option, [], false, if◌then◌else◌, length, negsuc, none, not, pos, some, suc, true, zero, ℕ,
  ℤ, ◌&&◌, ◌++◌, ◌==◌, ◌||◌, ◌∷◌,
}
use verify.Text.{
  Bytes, codes, cut, cut_last, cut_prefix, cut_suffix, equal, has_prefix, trim_prefix,
}
use verify.Decimal.{badly_led, canonical_decimal, unsigned_from}
use verify.Workflow.Inspect.Source.{trim_return}

abbrev pub Durations : Type 0
Durations = Bytes → Option ℤ

abbrev pub keep_or_drop : ℕ → Bytes → Bytes
keep_or_drop x [] = if x == b'\n' || x == b'\r' then [] else x ∷ []
keep_or_drop x (y ∷ ys) = x ∷ y ∷ ys

-- The output before its trailing line breaks.
unfoldable pub drop_breaks : Bytes → Bytes
drop_breaks [] = []
drop_breaks (x ∷ xs) = keep_or_drop x (drop_breaks xs)

-- The last line, and what stands before it.
unfoldable pub last_line : Bytes → Bytes × Bytes
last_line kept = elim (cut_last kept b'\n') [
  | none ↦ (trim_return kept, [])
  | some (before, after) ↦ (trim_return after, before ++ b'\n' ∷ [])
]

-- `previousOutputLine`
unfoldable pub previous_output_line : Bytes → Bytes × Bytes
unfolding drop_breaks last_line
previous_output_line output = last_line (drop_breaks output)

-- `validFuzzExecutionSuffix`
unfoldable pub valid_fuzz_execution_suffix : Bytes → Bool
valid_fuzz_execution_suffix [] = true
valid_fuzz_execution_suffix (c ∷ cs) = elim (cut (c ∷ cs) (codes " (total: ")) [
  | none ↦ false
  | some (interesting, total) ↦ elim (cut_suffix total (codes ")")) [
    | none ↦ false
    | some closed ↦
        has_prefix (c ∷ cs) (codes ", new interesting: ")
        && canonical_decimal (trim_prefix interesting (codes ", new interesting: "))
        && canonical_decimal closed
  ]
]

-- `err != nil || duration < 0` is false.
abbrev pub not_negative : Option ℤ → Bool
not_negative none = false
not_negative (some (pos n)) = true
not_negative (some (negsuc n)) = false

-- `validFuzzExecutionFields`
unfoldable pub valid_fuzz_execution_fields : Durations → Bytes → Bytes → Bytes → Bytes → Bool
unfolding valid_fuzz_execution_suffix
valid_fuzz_execution_fields parse_duration elapsed digits rate suffix =
    not
      (badly_led digits || not (canonical_decimal rate) || not (valid_fuzz_execution_suffix suffix))
    && not_negative (parse_duration elapsed)

-- `fuzzExecutionFields`
unfoldable pub fuzz_execution_fields : Bytes → Option (Bytes × Bytes × Bytes × Bytes)
fuzz_execution_fields line = elim (cut_prefix line (codes "fuzz: elapsed: ")) [
  | none ↦ none
  | some fields ↦ elim (cut fields (codes ", execs: ")) [
    | none ↦ none
    | some (elapsed, after) ↦ elim (cut after (codes " (")) [
      | none ↦ none
      | some (digits, rate_and_suffix) ↦ elim (cut rate_and_suffix (codes "/sec)")) [
        | none ↦ none
        | some (rate, suffix) ↦ some (elapsed, digits, rate, suffix)
      ]
    ]
  ]
]

-- `strconv.ParseUint(value, 10, 64)`
unfoldable pub parse_uint : Bytes → Option ℕ
parse_uint [] = none
parse_uint (c ∷ cs) = unsigned_from 0 (c ∷ cs)

abbrev pub nonzero : Option ℕ → Option ℕ
nonzero none = none
nonzero (some n) = if n == 0 then none else some n

-- `parseFuzzExecutionLine`
unfoldable pub parse_fuzz_execution_line : Durations → Bytes → Option ℕ
unfolding fuzz_execution_fields valid_fuzz_execution_fields parse_uint
parse_fuzz_execution_line parse_duration line = elim (fuzz_execution_fields line) [
  | none ↦ none
  | some (elapsed, digits, rate, suffix) ↦
      if valid_fuzz_execution_fields parse_duration elapsed digits rate suffix
      then nonzero (parse_uint digits)
      else none
]

abbrev pub or_rest : Option ℕ → Option ℕ → Option ℕ
or_rest none rest = rest
or_rest (some n) rest = some n

-- The loop of `terminalFuzzExecutions`, on fuel: a line is at least one byte.
unfoldable pub search_from : Durations → ℕ → Bytes → Option ℕ
unfolding previous_output_line parse_fuzz_execution_line
search_from parse_duration zero output = none
search_from parse_duration (suc fuel) [] = none
search_from parse_duration (suc fuel) (c ∷ cs) =
    let found = previous_output_line (c ∷ cs) in
    let rest = search_from parse_duration fuel found.1 in
    if not (equal found.0 (codes "PASS"))
    then rest
    else or_rest (parse_fuzz_execution_line parse_duration (previous_output_line found.1).0) rest

-- `terminalFuzzExecutions`
unfoldable pub terminal_fuzz_executions : Durations → Bytes → Option ℕ
unfolding search_from
terminal_fuzz_executions parse_duration output =
    let found = previous_output_line output in
    if not (has_prefix found.0 (codes "ok  \t"))
    then none
    else search_from parse_duration (length found.1) found.1

-- `minimumFuzzExecutions`
unfoldable pub minimum_fuzz_executions : Bytes → ℕ
unfolding parse_uint
minimum_fuzz_executions duration = elim (cut_suffix duration (codes "x")) [
  | none ↦ 1
  | some value ↦ elim (parse_uint value) [ none ↦ 0 | some n ↦ n ]
]
