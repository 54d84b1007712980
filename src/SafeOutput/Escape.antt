-- ===== src/SafeOutput/Escape.antt =====
-- A reference for the loops of internal/safeoutput: the text that they append, with no buffer. And
-- what `classify` says of a character.
use verify.Prelude.{
  arith, false, length, take, true, ℕ, ◌++◌, ◌-◌, ◌<◌, ◌∷◌, ◌≡◌, ◌≤◌, ap, dec_lt, sym, ◌∙◌, Bool,
  [], if◌then◌else◌, not, suc, zero, ◌&&◌, refl, ◌==◌, ◌≢◌,
}
use verify.Text.{Bytes}
use verify.Text.Utf8.{Unicode, decode_rune, invalid}
use verify.Text.Utf8.Laws.{decode_rune-Spans, decode_rune-stable}
use verify.SafeOutput.{
  classify, is_line_feed, is_unsafe, classify_rune, CharacterKind, escaped_byte, escaped_bytes,
  next_line_whitespace, workflow_command, is_printable, ascii_delete,
}

module _ (u : Unicode) where
  open u use {is_print, is_print_ascii}

  pub classify_ascii : (x : ℕ) (xs : Bytes) → x < 0x80 → (classify u (x ∷ xs)).1 ≡ 1
  unfolding classify
  classify_ascii x xs h = ground arith

  -- A byte of ASCII is classified alone.
  classify_alone : (x : ℕ) (xs ys : Bytes) → x < 0x80 → classify u (x ∷ xs) ≡ classify u (x ∷ ys)
  unfolding classify
  classify_alone x xs ys h = ground arith

  classify_high :
      (x : ℕ) (xs : Bytes) → 0x80 ≤ x → classify u (x ∷ xs) ≡ classify_rune u (decode_rune (x ∷ xs))
  unfolding classify
  classify_high x xs h = ground arith

  classify_rune-size : (d : ℕ × ℕ) → (classify_rune u d).1 ≡ d.1
  unfolding classify_rune
  classify_rune-size d = ground arith

  classify_rune-valid : (d : ℕ × ℕ) → is_unsafe (classify_rune u d).0 ≡ false → invalid d ≡ false
  unfolding classify_rune
  classify_rune-valid d h = ground arith

  pub classify-high_size :
      (x : ℕ) (xs : Bytes) → 0x80 ≤ x → (classify u (x ∷ xs)).1 ≡ (decode_rune (x ∷ xs)).1
  classify-high_size x xs h = ap (λ r. r.1) (classify_high x xs h) ∙ classify_rune-size _

  pub classify_some : (x : ℕ) (xs : Bytes) → 1 ≤ (classify u (x ∷ xs)).1
  classify_some x xs = elim (dec_lt x 0x80) [
    | yes l ↦ omega (arith, classify_ascii x xs l)
    | no h ↦
        let high : 0x80 ≤ x = omega arith in
        omega (arith, classify-high_size x xs high, (decode_rune-Spans x xs high).some_byte)
  ]

  pub classify_there : (x : ℕ) (xs : Bytes) → (classify u (x ∷ xs)).1 ≤ length (x ∷ xs)
  classify_there x xs = elim (dec_lt x 0x80) [
    | yes l ↦ omega (arith, classify_ascii x xs l)
    | no h ↦
        let high : 0x80 ≤ x = omega arith in
        omega (arith, classify-high_size x xs high, (decode_rune-Spans x xs high).there)
  ]

  classify_high-stable :
      (x : ℕ) (xs rest : Bytes)
      → 0x80 ≤ x
      → is_unsafe (classify u (x ∷ xs)).0 ≡ false
      → classify u (x ∷ (take ((classify u (x ∷ xs)).1 - 1) xs ++ rest)) ≡ classify u (x ∷ xs)
  classify_high-stable x xs rest h s =
      let e = classify_high x xs h in
      let v = classify_rune-valid (decode_rune (x ∷ xs)) (ap (λ c. is_unsafe c.0) (sym e) ∙ s) in
      ap (λ n. classify u (x ∷ (take (n - 1) xs ++ rest))) (classify-high_size x xs h)
      ∙ classify_high x _ h
      ∙ ap (classify_rune u) (decode_rune-stable x xs rest v)
      ∙ sym e

  -- A character that is not unsafe is read alike, whatever bytes follow it.
  pub classify-stable :
      (x : ℕ) (xs rest : Bytes)
      → is_unsafe (classify u (x ∷ xs)).0 ≡ false
      → classify u (x ∷ (take ((classify u (x ∷ xs)).1 - 1) xs ++ rest)) ≡ classify u (x ∷ xs)
  classify-stable x xs rest s = elim (dec_lt x 0x80) [
    | yes l ↦ classify_alone x _ xs l
    | no h ↦ classify_high-stable x xs rest (omega arith) s
  ]

  pub classify-line_feed :
      (x : ℕ) (xs : Bytes) → is_line_feed (classify u (x ∷ xs)).0 ≡ (x == b'\n')
  unfolding classify
  classify-line_feed x xs = ground arith

-- The reference. `keep` says which characters are shown as they are, and `tail` what stands at the
-- end, behind a line feed or not.
module _ (u : Unicode) (keep : CharacterKind → ℕ → Bool) (tail : Bool → Bytes) where
  unfoldable pub escape_from : ℕ → Bool → Bool → Bytes → Bytes
  escape_from skip line_whitespace last [] = tail last
  escape_from (suc k) line_whitespace last (x ∷ xs) = escape_from k line_whitespace last xs
  escape_from zero line_whitespace last (x ∷ xs) =
      let (kind, size) = classify u (x ∷ xs) in
      let character = take size (x ∷ xs) in
      let command = workflow_command (x ∷ xs) line_whitespace in
      let rest =
        escape_from (if command then 0 else size - 1)
          (if command then false else next_line_whitespace u line_whitespace kind character)
          (not command && is_line_feed kind) xs in
      if command
      then escaped_byte x ++ rest
      else if keep kind x
      then character ++ rest
      else escaped_bytes character ++ rest

  pub escape_from_nil : (k : ℕ) (lw last : Bool) → escape_from k lw last [] ≡ tail last
  unfolding escape_from
  escape_from_nil k lw last = refl

  pub escape_from_skip :
      (k : ℕ) (lw last : Bool) (x : ℕ) (xs : Bytes)
      → escape_from (suc k) lw last (x ∷ xs) ≡ escape_from k lw last xs
  unfolding escape_from
  escape_from_skip k lw last x xs = refl

  module _ (lw last : Bool) (x : ℕ) (xs : Bytes) where
    -- What follows the first character.
    abbrev pub behind : Bytes
    behind =
        let (kind, size) = classify u (x ∷ xs) in
        escape_from (size - 1) (next_line_whitespace u lw kind (take size (x ∷ xs)))
          (is_line_feed kind) xs

    pub escape_from_command :
        workflow_command (x ∷ xs) lw ≡ true
        → escape_from 0 lw last (x ∷ xs) ≡ escaped_byte x ++ escape_from 0 false false xs
    unfolding escape_from
    escape_from_command h = rw h

    pub escape_from_kept :
        workflow_command (x ∷ xs) lw ≡ false
        → keep (classify u (x ∷ xs)).0 x ≡ true
        → escape_from 0 lw last (x ∷ xs) ≡ take (classify u (x ∷ xs)).1 (x ∷ xs) ++ behind
    unfolding escape_from
    escape_from_kept h k = rw (h, k)

    pub escape_from_escaped :
        workflow_command (x ∷ xs) lw ≡ false
        → keep (classify u (x ∷ xs)).0 x ≡ false
        → escape_from 0 lw last (x ∷ xs)
          ≡ escaped_bytes (take (classify u (x ∷ xs)).1 (x ∷ xs)) ++ behind
    unfolding escape_from
    escape_from_escaped h k = rw (h, k)

-- The renderer keeps what is not unsafe, and ends the last line.
abbrev pub kept_as_is : CharacterKind → ℕ → Bool
kept_as_is kind x = not (is_unsafe kind)

abbrev pub newline_unless : Bool → Bytes
newline_unless last = if last then [] else b'\n' ∷ []

-- A diagnostic keeps what is printable but for tabs, and stays in one line.
abbrev pub kept_in_line : CharacterKind → ℕ → Bool
kept_in_line kind x = is_printable kind && not (x == b'\t')

abbrev pub nothing : Bool → Bytes
nothing last = []

-- What is kept of ASCII in a diagnostic is a visible character or a space.
pub kept_in_line-ascii :
    (u : Unicode) (x : ℕ) (xs : Bytes)
    → x < 0x80
    → kept_in_line (classify u (x ∷ xs)).0 x ≡ true
    → (32 ≤ x) × (x ≢ ascii_delete)
unfolding classify
kept_in_line-ascii u x xs l h = ground arith
