-- ===== src/Coverage/Profile/Complete.antt =====
-- What a profile holds that `CheckCoverage` of goverify/coverage.go accepts, and that it returns.
use verify.Prelude.{
  Bool-cases, List, Option-cases, [], ap, append-nil, append_assoc, arith, inl, inr, length,
  length-append, refl, some, subst, suc, sym, zero, ℕ, ◌++◌, ◌+◌, ◌∙◌, ◌∷◌, ◌≡◌, ◌≤◌, false,
}
use verify.Text.{Bytes}
use verify.Errors.{Error, ok, is}
use verify.Coverage.Profile.{Fragment, Read, Stream, chomp, judge, line_from, tail, too_long}
use verify.Coverage.{max_coverage_bytes}

-- The bytes of fragments, one behind the other.
abbrev pub text : List Fragment → Bytes
text [] = []
text (f ∷ fs) = f.bytes ++ text fs

abbrev pub unlines : List Bytes → Bytes
unlines [] = []
unlines (line ∷ lines) = line ++ b'\n' ∷ unlines lines

chomp-some : (v : Bytes) {line : Bytes} → chomp v ≡ some line → v ≡ line ++ b'\n' ∷ []
unfolding chomp
chomp-some [] h = absurd (ground arith)
chomp-some (x ∷ []) h = ground arith
chomp-some (x ∷ y ∷ xs) h = elim (Option-cases (chomp (y ∷ xs))) [
  | inl e ↦ absurd (ground arith)
  | inr (l, e) ↦ ap (◌∷◌ x) (chomp-some (y ∷ xs) e) ∙ ground arith
]

judge-ok :
    (v : Bytes) (e : Error) {line : Bytes} → judge v e ≡ some (ok line) → v ≡ line ++ b'\n' ∷ []
unfolding judge is
judge-ok v [] h = elim (Option-cases (chomp v)) [
  | inl e ↦ absurd (ground arith)
  | inr (l, e) ↦ chomp-some v e ∙ ground arith
]
judge-ok [] (c ∷ cs) h = absurd (ground arith)
judge-ok (x ∷ v) (c ∷ cs) h = absurd (ground arith)

-- A stream begins with these fragments, and the rest follows.
abbrev pub Splits : Stream → List Fragment → Stream → Type 0
Splits reader [] rest = reader ≡ rest
Splits reader (f ∷ used) rest = (reader 0 ≡ f) × Splits (tail reader) used rest

pub Splits-append :
    (a b : List Fragment) (reader middle rest : Stream)
    → Splits reader a middle
    → Splits middle b rest
    → Splits reader (a ++ b) rest
Splits-append [] b reader middle rest h k = subst (λ z. Splits z b rest) (sym h) k
Splits-append (f ∷ a) b reader middle rest h k =
    (h.0, Splits-append a b (tail reader) middle rest h.1 k)

some-injective : {A : Type 0} {a b : A} → some a ≡ some b → a ≡ b
some-injective h = cc

-- The fragments that make up a line, and the rest.
pub record IsLine (acc line : Bytes) (total total' : ℕ) (reader rest : Stream) : Type 0 where
  pub used : List Fragment
  pub splits : Splits reader used rest
  pub reads : acc ++ text used ≡ line ++ b'\n' ∷ []
  pub counted : total' ≡ total + length (text used)
  pub within : total' ≤ max_coverage_bytes

pub too_long-within :
    (total : ℕ) (line fragment : Bytes)
    → too_long total line fragment ≡ false
    → total ≤ max_coverage_bytes
unfolding too_long
too_long-within total line fragment h = ground arith

pub line_from-ok :
    (fuel : ℕ) (reader : Stream) (total : ℕ) (acc : Bytes) {line : Bytes} {total' : ℕ}
    {rest : Stream}
    → line_from fuel total acc reader ≡ some (ok line, total', rest)
    → IsLine acc line total total' reader rest
unfolding line_from
line_from-ok zero reader total acc h = absurd (ground arith)
line_from-ok (suc fuel) reader total acc {line} {total'} {rest} h =
    let f = reader 0 in
    let total1 = total + length f.bytes in
    elim (Bool-cases (too_long total1 acc f.bytes)) [
      | inl long ↦ absurd (ground arith)
      | inr fits ↦ elim (Option-cases (judge (acc ++ f.bytes) f.error)) [
        | inl more ↦
            let l =
              line_from-ok fuel (tail reader) total1 (acc ++ f.bytes) {line = line}
                {total' = total'} {rest = rest} (ground arith) in
            record {
              used = f ∷ l.used;
              splits = (refl, l.splits);
              reads = sym (append_assoc acc f.bytes (text l.used)) ∙ l.reads;
              counted = omega (arith, l.counted, length-append f.bytes (text l.used));
              within = l.within;
            }
        | inr (r, e) ↦
            let same : (r, total1, tail reader) ≡ (ok line, total', rest) =
              some-injective (ground arith) in
            record {
              used = f ∷ [];
              splits = (refl, ap (λ (x : Read). x.2) same);
              reads =
                  ap (λ t. acc ++ t) (append-nil f.bytes)
                  ∙ judge-ok (acc ++ f.bytes) f.error {line = line}
                      (e ∙ ap (λ (x : Read). some x.0) same);
              counted =
                  sym (ap (λ (x : Read). x.1) same)
                  ∙ ap (λ (t : Bytes). total + length t) (sym (append-nil f.bytes));
              within =
                  subst (λ n. n ≤ max_coverage_bytes) (ap (λ (x : Read). x.1) same)
                    (too_long-within total1 acc f.bytes fits);
            }
      ]
    ]
