-- ===== src/Coverage/Profile/Ends.antt =====
-- `CheckCoverage` of goverify/coverage.go ends on every reader, also on one that never ends.
use verify.Prelude.{
  Bool-cases, List, Option, Option-cases, [], ap, arith, false, inl, inr, length, length-append,
  none, refl, some, subst, suc, true, zero, ℕ, ◌++◌, ◌+◌, ◌<◌, ◌∷◌, ◌≡◌, ◌≢◌, ◌≤◌,
}
use verify.Text.{Bytes, codes, equal}
use verify.Text.Utf8.{Unicode}
use verify.Errors.{Error, Result, buffer_full, coverage_profile, err, is, ok}
use verify.Coverage.{Coverage, max_coverage_bytes}
use verify.Coverage.Profile.{
  Fragment, Owner, Read, Stream, Turn, check_coverage, check_mode, chomp, conclude, finished, judge,
  line_from, no_coverage, no_totals, read_fuel, rows_from, tail, too_long, turn_from, turned,
}
use verify.Coverage.Profile.Complete.{Splits, line_from-ok, too_long-within}
use verify.Coverage.Profile.Loop.{IsTurn, Turn-cases, turn_from-go}

-- `ReadSlice` returns `bufio.ErrBufferFull` only with a full buffer, so with some bytes.
abbrev pub IsBuffered : Stream → Type 0
IsBuffered reader = (n : ℕ) → is (reader n).error buffer_full ≡ true → 1 ≤ length (reader n).bytes

Splits-IsBuffered :
    (used : List Fragment) (reader rest : Stream)
    → Splits reader used rest
    → IsBuffered reader
    → IsBuffered rest
Splits-IsBuffered [] reader rest h b = subst IsBuffered h b
Splits-IsBuffered (f ∷ used) reader rest h b =
    Splits-IsBuffered used (tail reader) rest h.1 (λ n. b (n + 1))

judge-some : (line : Bytes) (e : Error) → is e buffer_full ≡ false → judge line e ≢ none
unfolding judge
judge-some line [] h = λ k. elim (Option-cases (chomp line)) [
  | inl bad ↦ absurd (ground arith)
  | inr (whole, good) ↦ absurd (ground arith)
]
judge-some line (c ∷ cs) h = λ k. absurd (ground arith)

judge-none : (line : Bytes) (e : Error) → judge line e ≡ none → is e buffer_full ≡ true
unfolding judge is
judge-none line e h = elim (Bool-cases (is e buffer_full)) [
  | inl full ↦ full
  | inr other_error ↦ absurd (judge-some line e other_error h)
]

-- A line ends before more bytes are counted than may be.
line_from-ends :
    (fuel : ℕ) (reader : Stream) (total : ℕ) (acc : Bytes)
    → IsBuffered reader
    → total ≤ max_coverage_bytes
    → max_coverage_bytes < fuel + total
    → (read : Read) × (line_from fuel total acc reader ≡ some read)
unfolding line_from
line_from-ends zero reader total acc b w h = absurd (omega arith)
line_from-ends (suc fuel) reader total acc b w h =
    let f = reader 0 in
    let total1 = total + length f.bytes in
    elim (Bool-cases (too_long total1 acc f.bytes)) [
      | inl long ↦ ((err (coverage_profile ∷ []), total1, tail reader), ground arith)
      | inr fits ↦ elim (Option-cases (judge (acc ++ f.bytes) f.error)) [
        | inr (r, e) ↦ ((r, total1, tail reader), ground arith)
        | inl more ↦
            let some_byte = b 0 (judge-none (acc ++ f.bytes) f.error more) in
            let (read, ends) =
              line_from-ends fuel (tail reader) total1 (acc ++ f.bytes) (λ n. b (n + 1))
                (too_long-within total1 acc f.bytes fits) (omega arith) in
            (read, ground arith)
      ]
    ]

module _ (u : Unicode) where
  turn_from-ends :
      (owner : Owner)
      → IsBuffered owner.reader
      → owner.bytes ≤ max_coverage_bytes
      → (turn : Turn) × (turn_from u owner ≡ some turn)
  unfolding turn_from
  turn_from-ends owner b w =
      let (read, ends) = line_from-ends read_fuel owner.reader owner.bytes [] b w (omega arith) in
      (turned u owner read, ground arith)

  -- A line that was read has counted at least one byte.
  turn-counted : (owner o : Owner) → IsTurn u owner o → owner.bytes + 1 ≤ o.bytes
  turn-counted owner o t =
      let l = t.read in
      omega (arith, l.counted, ap length l.reads, length-append t.line (b'\n' ∷ []))

  rows_from-ends :
      (fuel : ℕ) (owner : Owner)
      → IsBuffered owner.reader
      → owner.bytes ≤ max_coverage_bytes
      → max_coverage_bytes < fuel + owner.bytes
      → (r : Result Owner) × (rows_from u fuel owner ≡ some r)
  unfolding rows_from
  rows_from-ends zero owner b w h = absurd (omega arith)
  rows_from-ends (suc fuel) owner b w h =
      let (turn, e) = turn_from-ends owner b w in
      elim (Turn-cases turn) [
        | inl (r, stops) ↦ (r, ground arith)
        | inr (o, goes) ↦
            let t = turn_from-go u owner {o = o} (rw goes at e) in
            let l = t.read in
            let (r, ends) =
              rows_from-ends fuel o (Splits-IsBuffered l.used owner.reader o.reader l.splits b)
                l.within (omega (arith, turn-counted owner o t)) in
            (r, ground arith)
      ]

  finished-some :
      (o : Option (Result Owner)) (r : Result Owner)
      → o ≡ some r
      → (c : Coverage) × (e : Error) × (finished o ≡ some (c, e))
  unfolding finished
  finished-some o r h = ((conclude r).0, (conclude r).1, rw h refl)

  check_mode-ends :
      (reader : Stream) (read : Read)
      → IsBuffered reader
      → line_from read_fuel 0 [] reader ≡ some read
      → (c : Coverage) × (e : Error) × (check_mode u read ≡ some (c, e))
  unfolding check_mode
  check_mode-ends reader (err e, total, rest) b eq = (no_coverage, coverage_profile ∷ e, refl)
  check_mode-ends reader (ok line, total, rest) b eq =
      elim (Bool-cases (equal line (codes "mode: atomic"))) [
        | inr wrong ↦ (no_coverage, coverage_profile ∷ [], ground arith)
        | inl right ↦
            let start : Owner = record { reader = rest; bytes = total; totals = no_totals } in
            let l = line_from-ok read_fuel reader 0 [] {line = line} eq in
            let (r, ends) =
              rows_from-ends read_fuel start (Splits-IsBuffered l.used reader rest l.splits b)
                l.within (omega arith) in
            let (c, e, done) = finished-some (rows_from u read_fuel start) r ends in
            (c, e, ground arith)
      ]

  -- `CheckCoverage` ends with a result on every reader, also on one that never ends, however its reads
  -- are cut up and whatever errors they have, since the bytes and so the lines that it reads are limited.
  -- A read that fills the buffer returns some bytes.
  pub check_coverage-ends :
      (reader : Stream)
      → IsBuffered reader
      → (c : Coverage) × (e : Error) × (check_coverage u reader ≡ some (c, e))
  unfolding check_coverage
  check_coverage-ends reader b =
      let (read, found) = line_from-ends read_fuel reader 0 [] b (omega arith) (omega arith) in
      let (c, e, done) = check_mode-ends reader read b found in (c, e, ground arith)
