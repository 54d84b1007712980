-- ===== src/Source.antt =====
-- goverify/source.go: the reading of a file up to a limit.
use verify.Prelude.{
  Bool, Option, [], ap, arith, if◌then◌else◌, leb, length, negsuc, none, not, pos, refl, some, sym,
  true, ℕ, ℤ, ◌&&◌, ◌++◌, ◌+◌, ◌==◌, ◌||◌, ◌∙◌, ◌∷◌, ◌≡◌, ◌≤◌, Option-cases, false, inl, inr, subst,
}
use verify.Text.{Bytes}
use verify.Errors.{
  Cause, Error, Result, end_of_file, err, is, is_nil, ok, unexpected_eof, if_false-ok,
}

-- What is asked of an `os.FileInfo`: whether the file is regular, and its size.
pub record Information : Type 0 where
  pub regular : Bool
  pub size : ℤ

-- `boundedSource`: the information of `stat`, `none` for nil, with its error; what `io.ReadFull` reads
-- into a buffer of a size, as documented; and the error of `close`.
pub record BoundedSource : Type 0 where
  pub stat : Option Information × Error
  pub read_full : ℕ → Bytes × Error
  pub close : Error

-- The size, if it is from 0 to the limit.
abbrev pub size_within : ℕ → ℤ → Option ℕ
size_within maximum (pos n) = if leb n maximum then some n else none
size_within maximum (negsuc n) = none

abbrev pub regular_size : ℕ → Option Information → Option ℕ
regular_size maximum none = none
regular_size maximum (some i) = if i.regular then size_within maximum i.size else none

-- `readBoundedSourceLimit` behind the tests of the size.
unfoldable pub read_sized : Cause → ℕ → Bytes × Error → Error → Result Bytes
read_sized class size (value, read_error) close_error =
    if not (
        length value == size
        && (is read_error unexpected_eof || size == 0 && is read_error end_of_file))
      || not (is_nil close_error)
    then err (class ∷ read_error ++ close_error)
    else ok value

-- `readBoundedSourceLimit`
unfoldable pub read_bounded_source_limit : BoundedSource → Cause → ℕ → Result Bytes
unfolding read_sized
read_bounded_source_limit source class maximum =
    let (information, stat_error) = source.stat in
    if not (is_nil stat_error)
    then err (class ∷ stat_error ++ source.close)
    else elim (regular_size maximum information) [
      | none ↦ err (class ∷ source.close)
      | some size ↦ read_sized class size (source.read_full (size + 1)) source.close
    ]

-- What is known of a source that has been read.
pub record IsRead (source : BoundedSource) (maximum : ℕ) (value : Bytes) : Type 0 where
  pub whole :
      (i : Information) × (source.stat ≡ (some i, []))
      × (i.regular ≡ true)
      × (i.size ≡ pos (length value))
  pub bounded : length value ≤ maximum
  pub ended :
      (e : Error) × (source.read_full (length value + 1) ≡ (value, e))
      × ((is e unexpected_eof || is e end_of_file) ≡ true)
  pub closed : source.close ≡ []

read_sized-ok :
    (class : Cause) (size : ℕ) (read : Bytes × Error) (close_error : Error) {value : Bytes}
    → read_sized class size read close_error ≡ ok value
    → (read.0 ≡ value)
      × (length value ≡ size)
      × ((is read.1 unexpected_eof || is read.1 end_of_file) ≡ true)
      × (close_error ≡ [])
unfolding read_sized
read_sized-ok class size (read, e) [] {value} h =
    let same : read ≡ value = ground arith in
    let long : length read ≡ size = ground arith in
    (same, sym (ap length same) ∙ long, ground arith, refl)
read_sized-ok class size (read, e) (c ∷ cs) h = absurd (ground arith)

size_within-some :
    (maximum : ℕ) (z : ℤ) {size : ℕ}
    → size_within maximum z ≡ some size
    → (z ≡ pos size) × (size ≤ maximum)
size_within-some maximum (pos n) h = (ground arith, ground arith)
size_within-some maximum (negsuc n) h = absurd (ground arith)

regular_size-some :
    (maximum : ℕ) (o : Option Information) {size : ℕ}
    → regular_size maximum o ≡ some size
    → (i : Information) × (o ≡ some i) × (i.regular ≡ true) × (i.size ≡ pos size) × (size ≤ maximum)
regular_size-some maximum none h = absurd (ground arith)
regular_size-some maximum (some i) {size} h =
    let regular : i.regular ≡ true = ground arith in
    let sized : size_within maximum i.size ≡ some size = rw regular at h in
    let found = size_within-some maximum i.size sized in (i, refl, regular, found.0, found.1)

pair_lem {ℓ κ} :
    {A : Type ℓ} {B : Type κ} (p : A × B) {a : A} {b : B} → p.0 ≡ a → p.1 ≡ b → p ≡ (a, b)
pair_lem (x, y) h k = rw (h, k) refl

nil_lem : (e : Error) → not (is_nil e) ≡ false → e ≡ []
nil_lem [] h = refl
nil_lem (c ∷ cs) h = absurd (ground arith)

-- What `readBoundedSourceLimit` returns is the whole of a regular file: as many bytes as its size, which
-- is within the limit, read up to the end, and the file closed without an error.
pub read_bounded_source_limit-IsRead :
    (source : BoundedSource) (class : Cause) (maximum : ℕ) {value : Bytes}
    → read_bounded_source_limit source class maximum ≡ ok value
    → IsRead source maximum value
unfolding read_bounded_source_limit
read_bounded_source_limit-IsRead source class maximum {value} h =
    let (information, stat_error) = source.stat in
    let behind = if_false-ok (not (is_nil stat_error)) (class ∷ stat_error ++ source.close) h in
    let no_error = nil_lem stat_error (ground arith) in
    elim (Option-cases (regular_size maximum information)) [
      | inl refused ↦ absurd (ground arith)
      | inr (size, sized) ↦
          let (i, found, regular, same, le) = regular_size-some maximum information sized in
          let (bytes, long, ending, closing) =
            read_sized-ok class size (source.read_full (size + 1)) source.close {value = value}
              (ground arith) in
          record {
            whole = (i, pair_lem source.stat found no_error, regular, same ∙ ap pos (sym long));
            bounded = omega arith;
            ended = (
              (source.read_full (size + 1)).1,
              subst (λ n. source.read_full (n + 1) ≡ (value, (source.read_full (size + 1)).1))
                  (sym long) (pair_lem (source.read_full (size + 1)) bytes refl),
              ending,
            );
            closed = closing;
          }
    ]
