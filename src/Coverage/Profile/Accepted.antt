-- ===== src/Coverage/Profile/Accepted.antt =====
-- `CheckCoverage` of goverify/coverage.go: it accepts complete profiles only.
use verify.Coverage.Profile.Counted.{Adds-IsCounted, Adds-IsSound, Counts, Counts-at, text-lines}
use verify.Coverage.Profile.Loop.{IsRead, rows_from-err, rows_from-ok}
use verify.Prelude.{
  Bool-cases, List, Option, Option-cases, [], ap, arith, inl, inr, none, refl, some, subst, ℕ, ◌++◌,
  ◌<◌, ◌∷◌, ◌≡◌, ◌≢◌, ◌≤◌,
}
use verify.Text.{Bytes, codes, equal, equal_iff}
use verify.Text.Utf8.{Unicode}
use verify.Errors.{Error, Result, err, ok}
use verify.Coverage.{Coverage}
use verify.Coverage.Rows.{IsSound}
use verify.Coverage.Profile.{
  Fragment, Owner, Read, Stream, check_coverage, check_mode, conclude, finished, line_from,
  no_totals, read_fuel, rows_from,
}
use verify.Coverage.Profile.Complete.{IsLine, Splits, Splits-append, line_from-ok, text, unlines}
use verify.Decimal.{max_uint64}

module _ (u : Unicode) where
  -- A complete profile, with its coverage: the reader begins with the mode line and rows; their number
  -- and their statements are those of the coverage; there are some, they fit a `uint64`, and every
  -- statement is executed.
  pub record IsAccepted (reader : Stream) (c : Coverage) : Type 0 where
    pub rows : List Bytes
    pub used : List Fragment
    pub left : Stream
    pub splits : Splits reader used left
    pub reads : text used ≡ unlines (codes "mode: atomic" ∷ rows)
    pub counts : Counts u rows c.rows c.statements c.statements
    pub covered : c.covered ≡ c.statements
    pub some_rows : 0 < c.rows
    pub some_statements : 0 < c.statements
    pub fits : c.statements ≤ max_uint64

  conclude-ok :
      (r : Result Owner) {c : Coverage}
      → ((e : Error) → r ≡ err e → e ≢ [])
      → conclude r ≡ (c, [])
      → (o : Owner) × (r ≡ ok o)
        × (o.totals.result ≡ c)
        × (c.covered ≡ c.statements)
        × (0 < c.rows)
        × (0 < c.statements)
  unfolding conclude
  conclude-ok (err e) n h = absurd (n e refl (ground arith))
  conclude-ok (ok o) n h = (o, refl, ground arith, ground arith, ground arith, ground arith)

  finished-ok :
      (x : Option (Result Owner)) {c : Coverage}
      → ((e : Error) → x ≡ some (err e) → e ≢ [])
      → finished x ≡ some (c, [])
      → (o : Owner) × (x ≡ some (ok o))
        × (o.totals.result ≡ c)
        × (c.covered ≡ c.statements)
        × (0 < c.rows)
        × (0 < c.statements)
  unfolding finished
  finished-ok none n h = absurd (ground arith)
  finished-ok (some r) {c} n h =
      let (o, e, same, covered, rows, statements) =
        conclude-ok r {c = c} (λ e k. n e (ap some k)) (ground arith) in
      (o, ap some e, same, covered, rows, statements)

  start-IsSound : IsSound no_totals
  start-IsSound = record {
    rows_bound = omega arith;
    covered_bound = omega arith;
    statements_bound = omega arith;
    named = (λ _. refl, λ _. refl);
  }

  accepted :
      (reader rest : Stream) (total : ℕ) (o : Owner) (c : Coverage)
      → IsLine [] (codes "mode: atomic") 0 total reader rest
      → IsRead u rest no_totals o.totals
      → o.totals.result ≡ c
      → c.covered ≡ c.statements
      → 0 < c.rows
      → 0 < c.statements
      → IsAccepted reader c
  accepted reader rest total o c l r same covered some_rows some_statements =
      let n = Adds-IsCounted u r.adds in
      let sound = Adds-IsSound u r.adds start-IsSound in
      record {
        rows = r.lines;
        used = l.used ++ r.used;
        left = r.left;
        splits = Splits-append l.used r.used reader rest r.left l.splits r.splits;
        reads = text-lines l.used r.used (codes "mode: atomic") (unlines r.lines) l.reads r.reads;
        counts =
            Counts-at u n.counts (ground (arith, n.rows)) (ground (arith, n.total))
              (ground (arith, n.covered));
        covered = covered;
        some_rows = some_rows;
        some_statements = some_statements;
        fits = ground (arith, sound.statements_bound);
      }

  check_mode-accepts :
      (reader : Stream) (read : Read) {c : Coverage}
      → line_from read_fuel 0 [] reader ≡ some read
      → check_mode u read ≡ some (c, [])
      → IsAccepted reader c
  unfolding check_mode
  check_mode-accepts reader (err e, total, rest) eq h = absurd (ground arith)
  check_mode-accepts reader (ok line, total, rest) {c} eq h =
      elim (Bool-cases (equal line (codes "mode: atomic"))) [
        | inl right ↦
            let start : Owner = record { reader = rest; bytes = total; totals = no_totals } in
            let (o, ends, same, covered, rows, statements) =
              finished-ok (rows_from u read_fuel start) {c = c}
                (λ e k. rows_from-err u read_fuel start k) (ground arith) in
            accepted reader rest total o c
              (subst (λ z. IsLine [] z 0 total reader rest)
                ((equal_iff line (codes "mode: atomic")).0 right)
                (line_from-ok read_fuel reader 0 [] eq))
              (rows_from-ok u read_fuel start {o = o} ends) same covered rows statements
        | inr wrong ↦ absurd (ground arith)
      ]

  -- A nil error means that the profile is complete: what was read is the mode line and rows, whose
  -- number and statements are those returned, and every statement was executed.
  pub check_coverage-accepts :
      (reader : Stream) {c : Coverage}
      → check_coverage u reader ≡ some (c, [])
      → IsAccepted reader c
  unfolding check_coverage
  check_coverage-accepts reader {c} h = elim (Option-cases (line_from read_fuel 0 [] reader)) [
    | inl out ↦ absurd (ground arith)
    | inr (read, e) ↦ check_mode-accepts reader read {c = c} e (ground arith)
  ]
