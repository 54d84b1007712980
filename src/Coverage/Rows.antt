-- ===== src/Coverage/Rows.antt =====
-- What a row of a coverage profile adds to the totals.
use verify.Prelude.{
  [], arith, some, true, ℕ, ◌↔◌, ◌≡◌, ◌≢◌, ◌≤◌, Bool-cases, Option, if◌then◌else◌, inl, inr, ltb,
  none, not, refl, ◌&&◌, ◌+◌, ◌-◌, ◌==◌, ◌||◌, ◌∷◌,
}
use verify.Text.{Bytes, equal, equal_iff}
use verify.Text.Utf8.{Unicode}
use verify.Decimal.{max_uint64, unsigned_decimal}
use verify.Coverage.{
  Totals, coverage_fields, max_coverage_rows, valid_coverage_identity, add, add_counted, add_fields,
  add_statements,
}
use verify.Errors.{ok, Error, coverage_profile, err}

-- The totals stay in the bounds of their types, and an identity is at hand whenever a statement is
-- not covered.
pub record IsSound (t : Totals) : Type 0 where
  pub rows_bound : t.result.rows ≤ max_coverage_rows
  pub covered_bound : t.result.covered ≤ t.result.statements
  pub statements_bound : t.result.statements ≤ max_uint64
  pub named : (t.first_uncovered ≡ []) ↔ (t.result.covered ≡ t.result.statements)

-- A row read from a line: its fields, and its numbers.
pub record IsRow (u : Unicode) (line : Bytes) (identity : Bytes) (statements count : ℕ)
    : Type 0 where
  pub statement_text : Bytes
  pub count_text : Bytes
  pub fields : coverage_fields line ≡ some (identity, statement_text, count_text)
  pub identified : valid_coverage_identity u identity ≡ true
  pub statements_read : unsigned_decimal statement_text ≡ some statements
  pub count_read : unsigned_decimal count_text ≡ some count

coverage_fields-identity :
    (line : Bytes) {i s c : Bytes} → coverage_fields line ≡ some (i, s, c) → i ≢ []
unfolding coverage_fields
coverage_fields-identity line h = ground arith

-- What a row with these numbers does to the totals.
pub record IsAdded (t t' : Totals) (identity : Bytes) (statements count : ℕ) : Type 0 where
  pub rows : t'.result.rows ≡ t.result.rows + 1
  pub total : t'.result.statements ≡ t.result.statements + statements
  pub covered : t'.result.covered ≡ t.result.covered + (if count == 0 then 0 else statements)
  pub first : t'.first_uncovered ≡ (
      if count == 0 && not (statements == 0) && equal t.first_uncovered []
      then identity
      else t.first_uncovered)
  pub rows_fit : t.result.rows ≢ max_coverage_rows
  pub total_fits : statements ≤ max_uint64 - t.result.statements

module _ (u : Unicode) where
  abbrev Parsed : Bytes → Totals → Totals → Type 0
  Parsed line t t' =
      (identity : Bytes) × (statements : ℕ) × (count : ℕ) × IsRow u line identity statements count
      × IsAdded t t' identity statements count

  add_counted-ok :
      (t : Totals) (line i st ct : Bytes) (s : ℕ) (o : Option ℕ) {t' : Totals}
      → coverage_fields line ≡ some (i, st, ct)
      → valid_coverage_identity u i ≡ true
      → t.result.rows ≢ max_coverage_rows
      → unsigned_decimal st ≡ some s
      → s ≤ max_uint64 - t.result.statements
      → unsigned_decimal ct ≡ o
      → add_counted u t i s o ≡ ok t'
      → Parsed line t t'
  unfolding add_counted
  add_counted-ok t line i st ct s none f v r sr fits cr e = absurd (ground arith)
  add_counted-ok t line i st ct s (some count) f v r sr fits cr e = (
    i,
    s,
    count,
    record {
      statement_text = st;
      count_text = ct;
      fields = f;
      identified = v;
      statements_read = sr;
      count_read = cr;
    },
    record {
      rows = ground arith;
      total = ground arith;
      covered = ground arith;
      first = ground arith;
      rows_fit = r;
      total_fits = fits;
    },
  )

  add_statements-ok :
      (t : Totals) (line i st ct : Bytes) (o : Option ℕ) {t' : Totals}
      → coverage_fields line ≡ some (i, st, ct)
      → valid_coverage_identity u i ≡ true
      → t.result.rows ≢ max_coverage_rows
      → unsigned_decimal st ≡ o
      → add_statements u t i o ct ≡ ok t'
      → Parsed line t t'
  unfolding add_statements
  add_statements-ok t line i st ct none f v r sr e = absurd (ground arith)
  add_statements-ok t line i st ct (some s) f v r sr e =
      elim (Bool-cases (ltb (max_uint64 - t.result.statements) s)) [
        | inl over ↦ absurd (ground arith)
        | inr fits ↦
            add_counted-ok t line i st ct s (unsigned_decimal ct) f v r sr (ground arith) refl
              (rw fits at e)
      ]

  add_fields-ok :
      (t : Totals) (line : Bytes) (o : Option (Bytes × Bytes × Bytes)) {t' : Totals}
      → coverage_fields line ≡ o
      → add_fields u t o ≡ ok t'
      → Parsed line t t'
  unfolding add_fields
  add_fields-ok t line none f e = absurd (ground arith)
  add_fields-ok t line (some (i, st, ct)) f e =
      let refused = not (valid_coverage_identity u i) || t.result.rows == max_coverage_rows in
      elim (Bool-cases refused) [
        | inl bad ↦ absurd (ground arith)
        | inr good ↦
            add_statements-ok t line i st ct (unsigned_decimal st) f (ground arith) (ground arith)
              refl (rw good at e)
      ]

  -- `add` succeeds only on a row, and adds its numbers.
  pub add-ok : (t : Totals) (line : Bytes) {t' : Totals} → add u t line ≡ ok t' → Parsed line t t'
  unfolding add
  add-ok t line e = add_fields-ok t line (coverage_fields line) refl e

  added-IsSound :
      (t t' : Totals) (i : Bytes) (s c : ℕ) → i ≢ [] → IsAdded t t' i s c → IsSound t → IsSound t'
  added-IsSound t t' i s c n a h = record {
    rows_bound = omega (arith, a.rows, a.rows_fit, h.rows_bound);
    covered_bound = ground (arith, a.covered, a.total, h.covered_bound);
    statements_bound = omega (arith, a.total, a.total_fits, h.statements_bound);
    named = (
      λ e. ground (
        arith,
        equal_iff t.first_uncovered [],
        h.named,
        a.first,
        a.covered,
        a.total,
        h.covered_bound,
      ),
      λ e. ground (
        arith,
        equal_iff t.first_uncovered [],
        h.named,
        a.first,
        a.covered,
        a.total,
        h.covered_bound,
      ),
    );
  }

  -- `add` keeps the totals sound.
  pub add-IsSound :
      (t : Totals) (line : Bytes) {t' : Totals} → IsSound t → add u t line ≡ ok t' → IsSound t'
  add-IsSound t line {t'} h e =
      let (i, s, c, row, added) = add-ok t line e in
      added-IsSound t t' i s c (coverage_fields-identity line row.fields) added h

  add_counted-err :
      (t : Totals) (i : Bytes) (s : ℕ) (o : Option ℕ) {e : Error}
      → add_counted u t i s o ≡ err e
      → e ≡ coverage_profile ∷ []
  unfolding add_counted
  add_counted-err t i s none h = ground arith
  add_counted-err t i s (some c) h = absurd (ground arith)

  add_statements-err :
      (t : Totals) (i : Bytes) (o : Option ℕ) (ct : Bytes) {e : Error}
      → add_statements u t i o ct ≡ err e
      → e ≡ coverage_profile ∷ []
  unfolding add_statements
  add_statements-err t i none ct h = ground arith
  add_statements-err t i (some s) ct {e} h =
      ground (arith, add_counted-err t i s (unsigned_decimal ct) {e = e})

  add_fields-err :
      (t : Totals) (o : Option (Bytes × Bytes × Bytes)) {e : Error}
      → add_fields u t o ≡ err e
      → e ≡ coverage_profile ∷ []
  unfolding add_fields
  add_fields-err t none h = ground arith
  add_fields-err t (some (i, st, ct)) {e} h =
      ground (arith, add_statements-err t i (unsigned_decimal st) ct {e = e})

  -- Every refusal of `add` is `ErrCoverageProfile`.
  pub add-err :
      (t : Totals) (line : Bytes) {e : Error} → add u t line ≡ err e → e ≡ coverage_profile ∷ []
  unfolding add
  add-err t line h = add_fields-err t (coverage_fields line) h
