-- ===== src/SafeOutput/Diagnostic.antt =====
-- `Diagnostic` of internal/safeoutput: one line of safe text, in the size that it reserves.
use verify.Prelude.{
  All, Bool, [], ap, arith, false, if◌then◌else◌, inl, length, length-append, not, refl, suc, take,
  true, zero, ℕ, ◌&&◌, ◌*◌, ◌++◌, ◌+◌, ◌-◌, ◌∙◌, ◌∷◌, ◌≡◌, ◌≢◌, ◌≤◌, All-append, All-map, All-take,
  dec_lt, if_elim, length-take, subst, sym, ◌%◌, ◌/◌, ◌<◌,
}
use verify.Text.{Bytes}
use verify.Text.Utf8.{Unicode, decode_rune}
use verify.SafeOutput.{
  ascii_delete, classify, diagnostic, diagnostic_bytes_from, diagnostic_from, escaped_byte,
  escaped_bytes, is_line_feed, next_line_whitespace, safe, safe_from, workflow_command,
  diagnostic_bytes, hexadecimal_digit,
}
use verify.SafeOutput.Escape.{
  escape_from, kept_in_line, nothing, classify-high_size, classify_ascii, classify_there,
  kept_in_line-ascii,
}
use verify.SafeOutput.Safety.{IsByte}
use verify.SafeOutput.Shown.{safe_from-escape_from}
use verify.Text.Utf8.Laws.{IsHigh, decode_rune-Spans}

-- A byte of a line: no control byte of ASCII.
abbrev pub IsLineByte : ℕ → Type 0
IsLineByte b = (32 ≤ b) × (b ≢ ascii_delete)

length-escaped_bytes : (t : Bytes) → length (escaped_bytes t) ≡ length t * 4
unfolding escaped_bytes escaped_byte
length-escaped_bytes [] = refl
length-escaped_bytes (x ∷ t) = omega (arith, length-escaped_bytes t)

digit-line : (n : ℕ) → n < 16 → IsLineByte (hexadecimal_digit n)
unfolding hexadecimal_digit
digit-line n h = ground arith

escaped_byte-line : (x : ℕ) → IsByte x → All IsLineByte (escaped_byte x)
unfolding escaped_byte
escaped_byte-line x h = (
  ground arith,
  (ground arith, (digit-line (x / 16) (omega arith), (digit-line (x % 16) (omega arith), tt))),
)

escaped_bytes-line : (t : Bytes) → All IsByte t → All IsLineByte (escaped_bytes t)
unfolding escaped_bytes
escaped_bytes-line [] h = tt
escaped_bytes-line (x ∷ t) h =
    All-append IsLineByte (escaped_byte x) (escaped_bytes t) (escaped_byte-line x h.0)
      (escaped_bytes-line t h.1)

module _ (u : Unicode) where
  -- `Diagnostic` appends what the reference does.
  diagnostic_from_lem :
      (v : Bytes) (k : ℕ) (lw last : Bool)
      → diagnostic_from u k lw v ≡ escape_from u kept_in_line nothing k lw last v
  unfolding diagnostic_from escape_from
  diagnostic_from_lem [] k lw last = refl
  diagnostic_from_lem (x ∷ xs) (suc k) lw last = diagnostic_from_lem xs k lw last
  diagnostic_from_lem (x ∷ xs) zero lw last =
      let (kind, size) = classify u (x ∷ xs) in
      let character = take size (x ∷ xs) in
      let command = workflow_command (x ∷ xs) lw in
      ap
        (λ rest.
          if command
          then escaped_byte x ++ rest
          else if kept_in_line kind x
          then character ++ rest
          else escaped_bytes character ++ rest)
        (diagnostic_from_lem xs (if command then 0 else size - 1)
          (if command then false else next_line_whitespace u lw kind character)
          (not command && is_line_feed kind))

  -- A diagnostic passes the test `safe`, for any bytes given.
  pub safe-diagnostic : (v : Bytes) → All IsByte v → safe u (diagnostic u v) ≡ true
  unfolding safe diagnostic
  safe-diagnostic v b =
      ap (safe_from u 0 true) (diagnostic_from_lem v 0 true false)
      ∙ safe_from-escape_from u kept_in_line nothing
          (record { kept = λ k x h. ground arith; ends = λ last. inl refl }) v 0 true true false b
          (λ h. h)

  counted :
      (command plain : Bool) (x : ℕ) (character rest : Bytes) (size : ℕ)
      → length character ≡ size
      → length (
          if command
          then escaped_byte x ++ rest
          else if plain
          then character ++ rest
          else escaped_bytes character ++ rest)
        ≡ (if command then 4 else if plain then size else size * 4) + length rest
  counted true plain x t rest n h = unfold escaped_byte in omega arith
  counted false true x t rest n h = omega (arith, length-append t rest)
  counted false false x t rest n h =
      omega (arith, length-append (escaped_bytes t) rest, length-escaped_bytes t)

  length-diagnostic_from :
      (v : Bytes) (total k : ℕ) (lw : Bool)
      → diagnostic_bytes_from u total k lw v ≡ total + length (diagnostic_from u k lw v)
  unfolding diagnostic_bytes_from diagnostic_from
  length-diagnostic_from [] total k lw = omega arith
  length-diagnostic_from (x ∷ xs) total (suc k) lw = length-diagnostic_from xs total k lw
  length-diagnostic_from (x ∷ xs) total zero lw =
      let (kind, size) = classify u (x ∷ xs) in
      let character = take size (x ∷ xs) in
      let command = workflow_command (x ∷ xs) lw in
      let plain = kept_in_line kind x in
      let skip = if command then 0 else size - 1 in
      let next = if command then false else next_line_whitespace u lw kind character in
      let there : length character ≡ size =
        omega (arith, length-take size (x ∷ xs), classify_there u x xs) in
      length-diagnostic_from xs (total + (if command then 4 else if plain then size else size * 4))
        skip next
      ∙ omega (arith, counted command plain x character (diagnostic_from u skip next xs) size there)

  -- `Diagnostic` writes exactly as many bytes as `diagnosticBytes` reserves.
  pub length-diagnostic : (v : Bytes) → diagnostic_bytes u v ≡ length (diagnostic u v)
  unfolding diagnostic_bytes diagnostic
  length-diagnostic v = length-diagnostic_from v 0 0 true ∙ omega arith

  kept-line :
      (x : ℕ) (xs : Bytes)
      → kept_in_line (classify u (x ∷ xs)).0 x ≡ true
      → All IsLineByte (take (classify u (x ∷ xs)).1 (x ∷ xs))
  kept-line x xs h = elim (dec_lt x 0x80) [
    | yes l ↦
        subst (λ n. All IsLineByte (take n (x ∷ xs))) (sym (classify_ascii u x xs l))
          (kept_in_line-ascii u x xs l h, tt)
    | no g ↦
        let high : IsHigh x = omega arith in
        subst (λ n. All IsLineByte (take n (x ∷ xs))) (sym (classify-high_size u x xs high))
          (All-map IsHigh IsLineByte (take (decode_rune (x ∷ xs)).1 (x ∷ xs)) (λ y k. omega arith)
            (decode_rune-Spans x xs high).high)
  ]

  diagnostic_from-line :
      (v : Bytes) (k : ℕ) (lw : Bool) → All IsByte v → All IsLineByte (diagnostic_from u k lw v)
  unfolding diagnostic_from
  diagnostic_from-line [] k lw b = tt
  diagnostic_from-line (x ∷ xs) (suc k) lw b = diagnostic_from-line xs k lw b.1
  diagnostic_from-line (x ∷ xs) zero lw b =
      let (kind, size) = classify u (x ∷ xs) in
      let character = take size (x ∷ xs) in
      let command = workflow_command (x ∷ xs) lw in
      let rest =
        diagnostic_from-line xs (if command then 0 else size - 1)
          (if command then false else next_line_whitespace u lw kind character) b.1 in
      if_elim (All IsLineByte) command
        (λ _. All-append IsLineByte (escaped_byte x) _ (escaped_byte-line x b.0) rest)
        (λ _.
          if_elim (All IsLineByte) (kept_in_line kind x)
            (λ k. All-append IsLineByte character _ (kept-line x xs k) rest)
            (λ _.
              All-append IsLineByte (escaped_bytes character) _
                (escaped_bytes-line character (All-take IsByte size (x ∷ xs) b)) rest))

  -- A diagnostic is one line: it holds no line feed and no other control byte of ASCII.
  pub diagnostic-line : (v : Bytes) → All IsByte v → All IsLineByte (diagnostic u v)
  unfolding diagnostic
  diagnostic-line v b = diagnostic_from-line v 0 true b
