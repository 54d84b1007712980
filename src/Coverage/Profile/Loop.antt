-- ===== src/Coverage/Profile/Loop.antt =====
-- The loop of `CheckCoverage` of goverify/coverage.go: what it reads.
use verify.Coverage.Profile.Counted.{Adds, text-lines, next, none_left}
use verify.Prelude.{
  List, Option-cases, [], ap, arith, inl, inr, refl, some, subst, suc, sym, zero, ℕ, ◌++◌, ◌∷◌, ◌≡◌,
  ◌≢◌, ◌⊎◌,
}
use verify.Text.{Bytes}
use verify.Text.Utf8.{Unicode}
use verify.Errors.{Result, ok, err, Error, coverage_profile}
use verify.Coverage.{Totals, add}
use verify.Coverage.Rows.{add-err}
use verify.Coverage.Profile.{
  Fragment, Owner, Read, Stream, Turn, added, go, line_from, read_fuel, rows_from, stop, turn_from,
  turned,
}
use verify.Coverage.Profile.Complete.{IsLine, Splits, Splits-append, line_from-ok, text, unlines}

pub Turn-cases : (t : Turn) → ((r : Result Owner) × (t ≡ stop r)) ⊎ ((o : Owner) × (t ≡ go o))
Turn-cases (stop r) = inl (r, refl)
Turn-cases (go o) = inr (o, refl)

go-injective : {a b : Owner} → go a ≡ go b → a ≡ b
go-injective h = cc

module _ (u : Unicode) where
  -- What a loop reads: the reader begins with these lines, and they give these totals.
  pub record IsRead (reader : Stream) (t t' : Totals) : Type 0 where
    pub lines : List Bytes
    pub used : List Fragment
    pub left : Stream
    pub splits : Splits reader used left
    pub reads : text used ≡ unlines lines
    pub adds : Adds u t lines t'

  added-go :
      (total : ℕ) (rest : Stream) (r : Result Totals) {o : Owner}
      → added u total rest r ≡ go o
      → (r ≡ ok o.totals) × (o.reader ≡ rest) × (o.bytes ≡ total)
  unfolding added
  added-go total rest (err e) h = absurd (ground arith)
  added-go total rest (ok t) {o} h =
      let same = go-injective h in
      (ap (λ (o : Owner). ok o.totals) same, ap Owner.reader (sym same), ap Owner.bytes (sym same))

  -- A turn that goes on has read a line and added it.
  pub record IsTurn (owner o : Owner) : Type 0 where
    pub line : Bytes
    pub read : IsLine [] line owner.bytes o.bytes owner.reader o.reader
    pub adds : add u owner.totals line ≡ ok o.totals

  turned-go :
      (owner : Owner) (read : Read) {o : Owner}
      → line_from read_fuel owner.bytes [] owner.reader ≡ some read
      → turned u owner read ≡ go o
      → IsTurn owner o
  unfolding turned
  turned-go owner (err e, total, rest) eq h = absurd (ground arith)
  turned-go owner (ok line, total, rest) {o} eq h =
      let (a, same, counted) = added-go total rest (add u owner.totals line) {o = o} h in
      record {
        line = line;
        read =
            subst (λ n. IsLine [] line owner.bytes n owner.reader o.reader) (sym counted)
              (subst (IsLine [] line owner.bytes total owner.reader) (sym same)
                (line_from-ok read_fuel owner.reader owner.bytes [] eq));
        adds = a;
      }

  pub turn_from-go : (owner : Owner) {o : Owner} → turn_from u owner ≡ some (go o) → IsTurn owner o
  unfolding turn_from
  turn_from-go owner {o} h = elim (Option-cases (line_from read_fuel owner.bytes [] owner.reader)) [
    | inl e ↦ absurd (ground arith)
    | inr (read, e) ↦ turned-go owner read {o = o} e (ground arith)
  ]

  added-stop :
      (total : ℕ) (rest : Stream) (r : Result Totals) {o : Owner}
      → added u total rest r ≡ stop (ok o)
      → ⊥
  unfolding added
  added-stop total rest (err e) h = ground arith
  added-stop total rest (ok t) h = ground arith

  turned-stop :
      (owner : Owner) (read : Read) {o : Owner}
      → turned u owner read ≡ stop (ok o)
      → o.totals ≡ owner.totals
  unfolding turned
  turned-stop owner (err e, total, rest) h = ground arith
  turned-stop owner (ok line, total, rest) h =
      absurd (added-stop total rest (add u owner.totals line) h)

  -- A turn that leaves the loop well has the totals that it began with.
  turn_from-stop :
      (owner : Owner) {o : Owner} → turn_from u owner ≡ some (stop (ok o)) → o.totals ≡ owner.totals
  unfolding turn_from
  turn_from-stop owner {o} h =
      elim (Option-cases (line_from read_fuel owner.bytes [] owner.reader)) [
        | inl e ↦ absurd (ground arith)
        | inr (read, e) ↦ turned-stop owner read {o = o} (ground arith)
      ]

  IsRead-next :
      (owner o : Owner) (t : Totals)
      → IsTurn owner o
      → IsRead o.reader o.totals t
      → IsRead owner.reader owner.totals t
  IsRead-next owner o t turn r =
      let l = turn.read in
      record {
        lines = turn.line ∷ r.lines;
        used = l.used ++ r.used;
        left = r.left;
        splits = Splits-append l.used r.used owner.reader o.reader r.left l.splits r.splits;
        reads = text-lines l.used r.used turn.line (unlines r.lines) l.reads r.reads;
        adds = next turn.adds r.adds;
      }

  pub rows_from-ok :
      (fuel : ℕ) (owner : Owner) {o : Owner}
      → rows_from u fuel owner ≡ some (ok o)
      → IsRead owner.reader owner.totals o.totals
  unfolding rows_from
  rows_from-ok zero owner h = absurd (ground arith)
  rows_from-ok (suc fuel) owner {o} h = elim (Option-cases (turn_from u owner)) [
    | inl e ↦ absurd (ground arith)
    | inr (turn, e) ↦ elim (Turn-cases turn) [
      | inl (r, stops) ↦
          let same = turn_from-stop owner {o = o} (ground arith) in
          record {
            lines = [];
            used = [];
            left = owner.reader;
            splits = refl;
            reads = refl;
            adds = subst (Adds u owner.totals []) (sym same) none_left;
          }
      | inr (o1, goes) ↦
          IsRead-next owner o1 o.totals (turn_from-go owner {o = o1} (rw goes at e))
            (rows_from-ok fuel o1 {o = o} (ground arith))
    ]
  ]

  added-err :
      (total : ℕ) (rest : Stream) (r : Result Totals)
      → ((e : Error) → r ≡ err e → e ≡ coverage_profile ∷ [])
      → {e : Error} → added u total rest r ≡ stop (err e)
      → e ≢ []
  unfolding added
  added-err total rest (err e) refused h = ground (arith, refused e refl)
  added-err total rest (ok t) refused h = absurd (ground arith)

  turned-err :
      (owner : Owner) (read : Read) {e : Error} → turned u owner read ≡ stop (err e) → e ≢ []
  unfolding turned
  turned-err owner (err e, total, rest) h = ground arith
  turned-err owner (ok line, total, rest) h =
      added-err total rest (add u owner.totals line) (λ e k. add-err u owner.totals line k) h

  turn_from-err : (owner : Owner) {e : Error} → turn_from u owner ≡ some (stop (err e)) → e ≢ []
  unfolding turn_from
  turn_from-err owner {e} h =
      elim (Option-cases (line_from read_fuel owner.bytes [] owner.reader)) [
        | inl out ↦ absurd (ground arith)
        | inr (read, found) ↦ turned-err owner read {e = e} (ground arith)
      ]

  pub rows_from-err :
      (fuel : ℕ) (owner : Owner) {e : Error} → rows_from u fuel owner ≡ some (err e) → e ≢ []
  unfolding rows_from
  rows_from-err zero owner h = absurd (ground arith)
  rows_from-err (suc fuel) owner {e} h = elim (Option-cases (turn_from u owner)) [
    | inl out ↦ absurd (ground arith)
    | inr (turn, found) ↦ elim (Turn-cases turn) [
      | inl (r, stops) ↦ turn_from-err owner {e = e} (ground arith)
      | inr (o, goes) ↦ rows_from-err fuel o {e = e} (ground arith)
    ]
  ]
