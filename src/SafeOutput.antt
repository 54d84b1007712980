-- ===== src/SafeOutput.antt =====
-- internal/safeoutput: process output and diagnostics, shown so that no control byte and no
-- workflow command of a CI service gets through. The Unicode tables and the writer are parameters.
-- `index += size` in the loops over a value is a count of bytes to skip.
pub mod Escape
pub mod Safety
pub mod Shown
pub mod Renderer
pub mod Diagnostic
use verify.Prelude.{
  Bool, [], false, if◌then◌else◌, leb, ltb, not, suc, take, true, zero, ℕ, ◌%◌, ◌&&◌, ◌*◌, ◌++◌,
  ◌+◌, ◌-◌, ◌/◌, ◌==◌, ◌||◌, ◌∷◌,
}
use verify.Text.{Bytes, codes, has_prefix}
use verify.Text.Utf8.{Unicode, decode_rune, rune_error}

pub data CharacterKind : Type 0 where
  printable line_feed unsafe : CharacterKind

abbrev pub is_unsafe : CharacterKind → Bool
is_unsafe unsafe = true
is_unsafe _ = false

abbrev pub is_printable : CharacterKind → Bool
is_printable printable = true
is_printable _ = false

abbrev pub is_line_feed : CharacterKind → Bool
is_line_feed line_feed = true
is_line_feed _ = false

abbrev pub ascii_delete : ℕ
ascii_delete = 0x7f

-- `workflowCommand` and `workflowCommandText`
unfoldable pub workflow_command : Bytes → Bool → Bool
unfolding has_prefix
workflow_command value line_whitespace =
    line_whitespace && has_prefix value (codes "::")
    || has_prefix value (codes "##vso[")
    || has_prefix value (codes "##[")

-- `hexadecimalDigits[n]`, for `n` below 16
pub hexadecimal_digit : ℕ → ℕ
hexadecimal_digit n = if ltb n 10 then b'0' + n else b'a' + (n - 10)

-- `\x` and two digits: the high four bits and the low four.
unfoldable pub escaped_byte : ℕ → Bytes
unfolding hexadecimal_digit
escaped_byte value =
    b'\\' ∷ b'x' ∷ hexadecimal_digit (value / 16) ∷ hexadecimal_digit (value % 16) ∷ []

unfoldable pub escaped_bytes : Bytes → Bytes
escaped_bytes [] = []
escaped_bytes (x ∷ xs) = escaped_byte x ++ escaped_bytes xs

module _ (u : Unicode) where
  open u use {is_print, is_space}

  -- The last case of `classify`, on what `utf8.DecodeRune` returns.
  unfoldable pub classify_rune : ℕ × ℕ → CharacterKind × ℕ
  classify_rune (decoded, size) =
      if decoded == rune_error && size == 1 || not (is_print decoded)
      then (unsafe, size)
      else (printable, size)

  -- The kind of the first character and its size; the source calls it on a value that is not empty.
  unfoldable pub classify : Bytes → CharacterKind × ℕ
  unfolding classify_rune
  classify [] = (unsafe, 0)
  classify (c ∷ cs) =
      if c == b'\n'
      then (line_feed, 1)
      else if c == b'\t' || leb b' ' c && ltb c 0x80 && not (c == ascii_delete)
      then (printable, 1)
      else if ltb c 0x80
      then (unsafe, 1)
      else classify_rune (decode_rune (c ∷ cs))

  unfoldable pub next_line_whitespace : Bool → CharacterKind → Bytes → Bool
  next_line_whitespace current kind value =
      if is_line_feed kind
      then true
      else if not current || is_unsafe kind
      then false
      else is_space (decode_rune value).0

  -- The loop of `safe`, with `skip` bytes left of the last character.
  pub safe_from : ℕ → Bool → Bytes → Bool
  safe_from skip line_whitespace [] = true
  safe_from (suc k) line_whitespace (x ∷ xs) = safe_from k line_whitespace xs
  safe_from zero line_whitespace (x ∷ xs) =
      let (kind, size) = classify (x ∷ xs) in
      let rest =
        safe_from (size - 1) (next_line_whitespace line_whitespace kind (take size (x ∷ xs))) xs in
      if workflow_command (x ∷ xs) line_whitespace
      then false
      else if is_unsafe kind
      then false
      else rest

  unfoldable pub safe : Bytes → Bool
  unfolding safe_from
  safe value = safe_from 0 true value

  -- `Diagnostic`: every character that is not printable, tabs and line feeds too, is escaped.
  pub diagnostic_from : ℕ → Bool → Bytes → Bytes
  diagnostic_from skip line_whitespace [] = []
  diagnostic_from (suc k) line_whitespace (x ∷ xs) = diagnostic_from k line_whitespace xs
  diagnostic_from zero line_whitespace (x ∷ xs) =
      let (kind, size) = classify (x ∷ xs) in
      let character = take size (x ∷ xs) in
      let command = workflow_command (x ∷ xs) line_whitespace in
      let rest =
        diagnostic_from (if command then 0 else size - 1)
          (if command then false else next_line_whitespace line_whitespace kind character) xs in
      if command
      then escaped_byte x ++ rest
      else if is_printable kind && not (x == b'\t')
      then character ++ rest
      else escaped_bytes character ++ rest

  unfoldable pub diagnostic : Bytes → Bytes
  unfolding diagnostic_from
  diagnostic value = diagnostic_from 0 true value

  -- `diagnosticBytes`, the size that `Diagnostic` reserves.
  pub diagnostic_bytes_from : ℕ → ℕ → Bool → Bytes → ℕ
  diagnostic_bytes_from total skip line_whitespace [] = total
  diagnostic_bytes_from total (suc k) line_whitespace (x ∷ xs) =
      diagnostic_bytes_from total k line_whitespace xs
  diagnostic_bytes_from total zero line_whitespace (x ∷ xs) =
      let (kind, size) = classify (x ∷ xs) in
      let character = take size (x ∷ xs) in
      let command = workflow_command (x ∷ xs) line_whitespace in
      let plain = is_printable kind && not (x == b'\t') in
      diagnostic_bytes_from (total + (if command then 4 else if plain then size else size * 4))
        (if command then 0 else size - 1)
        (if command then false else next_line_whitespace line_whitespace kind character) xs

  unfoldable pub diagnostic_bytes : Bytes → ℕ
  unfolding diagnostic_bytes_from
  diagnostic_bytes value = diagnostic_bytes_from 0 0 true value
