-- ===== src/Coverage/Profile/Counted.antt =====
-- What the rows of a profile of goverify/coverage.go add to its totals.
use verify.Prelude.{
  List, [], arith, if◌then◌else◌, refl, ℕ, ◌++◌, ◌+◌, ◌==◌, ◌∷◌, ◌≡◌, ◌≤◌, subst, sym, ap,
  append_assoc, ◌∙◌,
}
use verify.Text.{Bytes}
use verify.Text.Utf8.{Unicode}
use verify.Errors.{ok}
use verify.Coverage.{Totals, add}
use verify.Coverage.Rows.{IsRow, IsSound, add-IsSound, add-ok}
use verify.Coverage.Profile.{Fragment, added}
use verify.Coverage.Profile.Complete.{text}

text-append : (a b : List Fragment) → text (a ++ b) ≡ text a ++ text b
text-append [] b = refl
text-append (f ∷ a) b =
    ap (λ t. f.bytes ++ t) (text-append a b) ∙ sym (append_assoc f.bytes (text a) (text b))

pub text-lines :
    (a b : List Fragment) (line rest : Bytes)
    → text a ≡ line ++ b'\n' ∷ []
    → text b ≡ rest
    → text (a ++ b) ≡ line ++ b'\n' ∷ rest
text-lines a b line rest h k =
    text-append a b
    ∙ ap (λ (t : Bytes). t ++ text b) h
    ∙ append_assoc line (b'\n' ∷ []) (text b)
    ∙ ap (λ t. line ++ b'\n' ∷ t) k

module _ (u : Unicode) where
  -- Lines that are rows, with how many they are, their statements, and those of them that were
  -- executed.
  pub data Counts : List Bytes → ℕ → ℕ → ℕ → Type 0 where
    empty : Counts [] 0 0 0
    row :
        {line identity : Bytes} {statements count : ℕ} {lines : List Bytes} {r s c r' s' c' : ℕ}
        → IsRow u line identity statements count
        → Counts lines r s c
        → r' ≡ r + 1
        → s' ≡ s + statements
        → c' ≡ c + (if count == 0 then 0 else statements)
        → Counts (line ∷ lines) r' s' c'

  pub Counts-at :
      {lines : List Bytes} {r s c r' s' c' : ℕ}
      → Counts lines r s c
      → r ≡ r'
      → s ≡ s'
      → c ≡ c'
      → Counts lines r' s' c'
  Counts-at {lines} {r} {s} {s'} {c'} h a b d =
      subst (λ x. Counts lines x s' c') a
        (subst (λ x. Counts lines r x c') b (subst (λ x. Counts lines r s x) d h))

  Counts-covered : {lines : List Bytes} {r s c : ℕ} → Counts lines r s c → c ≤ s
  Counts-covered empty = omega arith
  Counts-covered (row x cs er es ec) = ground (arith, Counts-covered cs)

  -- The lines that a loop adds, from totals to totals.
  pub data Adds : Totals → List Bytes → Totals → Type 0 where
    none_left : {t : Totals} → Adds t [] t
    next :
        {t t' t'' : Totals} {line : Bytes} {lines : List Bytes}
        → add u t line ≡ ok t'
        → Adds t' lines t''
        → Adds t (line ∷ lines) t''

  pub Adds-IsSound : {t t' : Totals} {lines : List Bytes} → Adds t lines t' → IsSound t → IsSound t'
  Adds-IsSound none_left h = h
  Adds-IsSound (next {t} {line = line} e a) h = Adds-IsSound a (add-IsSound u t line h e)

  -- The totals that lines add.
  pub record IsCounted (t t' : Totals) (lines : List Bytes) : Type 0 where
    pub r : ℕ
    pub s : ℕ
    pub c : ℕ
    pub counts : Counts lines r s c
    pub rows : t'.result.rows ≡ t.result.rows + r
    pub total : t'.result.statements ≡ t.result.statements + s
    pub covered : t'.result.covered ≡ t.result.covered + c

  pub Adds-IsCounted : {t t' : Totals} {lines : List Bytes} → Adds t lines t' → IsCounted t t' lines
  Adds-IsCounted none_left = record {
    r = 0;
    s = 0;
    c = 0;
    counts = empty;
    rows = omega arith;
    total = omega arith;
    covered = omega arith;
  }
  Adds-IsCounted (next {t} {line = line} e a) =
      let (i, s, c, is_row, added) = add-ok u t line e in
      let h = Adds-IsCounted a in
      record {
        r = h.r + 1;
        s = h.s + s;
        c = h.c + (if c == 0 then 0 else s);
        counts = row is_row h.counts refl refl refl;
        rows = omega (arith, h.rows, added.rows);
        total = omega (arith, h.total, added.total);
        covered = omega (arith, h.covered, added.covered);
      }
