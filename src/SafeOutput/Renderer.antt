-- ===== src/SafeOutput/Renderer.antt =====
-- The buffered renderer of internal/safeoutput, and `Write`. A renderer is `buffer[:used]` with the
-- state of its output; each method returns its error and the renderer as it then is.
pub mod Stream
pub mod Write
use verify.Prelude.{
  Bool, [], false, if◌then◌else◌, length, not, suc, take, true, zero, ℕ, ◌&&◌, ◌++◌, ◌-◌, ◌==◌, ◌∷◌,
}
use verify.Text.{Bytes, codes}
use verify.Text.Utf8.{Unicode}
use verify.Errors.{Error}
use verify.ExactWrite.{Writer, bytes}
use verify.SafeOutput.{
  CharacterKind, classify, escaped_byte, is_line_feed, is_unsafe, next_line_whitespace, safe,
  workflow_command,
}

abbrev pub escape_buffer_bytes : ℕ
escape_buffer_bytes = 4096

pub record Renderer (S : Type 0) : Type 0 where
  pub output : S
  pub buffer : Bytes

-- `if err := m; err != nil { return err }`, and then `f`.
infixl 5 ◌>>=◌
abbrev pub ◌>>=◌ {ℓ} : {R : Type ℓ} → Error × R → (R → Error × R) → Error × R
([], r) >>= f = f r
(c ∷ cs, r) >>= f = (c ∷ cs, r)

-- `value[len(value)-1] == '\n'`, on a value that is not empty.
abbrev pub ends_with_newline : Bytes → Bool
ends_with_newline [] = false
ends_with_newline (x ∷ xs) = elim xs [ [] ↦ x == b'\n' | _ ∷ _ ↦ ends_with_newline xs ]

module _ (w : Writer) where
  open w use {Sink}

  -- Behind the write of a buffer that is not empty: `used` is reset, unless the write failed.
  pub flushed : Bytes → Error × Sink → Error × Renderer Sink
  flushed buffer ([], output) = ([], record { output = output; buffer = [] })
  flushed buffer (c ∷ cs, output) = (c ∷ cs, record { output = output; buffer = buffer })

  pub flush_bytes : Sink → Bytes → Error × Renderer Sink
  unfolding flushed
  flush_bytes output [] = ([], record { output = output; buffer = [] })
  flush_bytes output (x ∷ xs) = flushed (x ∷ xs) (bytes w output (x ∷ xs))

  unfoldable pub flush : Renderer Sink → Error × Renderer Sink
  unfolding flush_bytes
  flush owner = flush_bytes owner.output owner.buffer

  -- The store at `used` is in bounds, for a full buffer is flushed first.
  unfoldable pub append_byte : ℕ → Renderer Sink → Error × Renderer Sink
  append_byte value owner =
      (if length owner.buffer == escape_buffer_bytes then flush owner else ([], owner)) >>= λ o.
      ([], record o { buffer = o.buffer ++ value ∷ [] })

  unfoldable pub append_bytes : Bytes → Renderer Sink → Error × Renderer Sink
  append_bytes [] owner = ([], owner)
  append_bytes (x ∷ xs) owner = append_byte x owner >>= append_bytes xs

  unfoldable pub append_escaped_byte : ℕ → Renderer Sink → Error × Renderer Sink
  append_escaped_byte value = append_bytes (escaped_byte value)

  unfoldable pub append_escaped : Bytes → Renderer Sink → Error × Renderer Sink
  append_escaped [] owner = ([], owner)
  append_escaped (x ∷ xs) owner = append_escaped_byte x owner >>= append_escaped xs

  -- `renderer.append`
  unfoldable pub append : Bytes → CharacterKind → Renderer Sink → Error × Renderer Sink
  append value kind = if not (is_unsafe kind) then append_bytes value else append_escaped value

  module _ (u : Unicode) where
    -- The loop of `writeEscaped` and what stands behind it.
    unfoldable pub write_escaped_from :
        ℕ → Bool → Bool → Bytes → Renderer Sink → Error × Renderer Sink
    write_escaped_from skip line_whitespace last [] owner =
        (if not last then append_byte b'\n' owner else ([], owner)) >>= flush
    write_escaped_from (suc k) line_whitespace last (x ∷ xs) owner =
        write_escaped_from k line_whitespace last xs owner
    write_escaped_from zero line_whitespace last (x ∷ xs) owner =
        let (kind, size) = classify u (x ∷ xs) in
        let character = take size (x ∷ xs) in
        let command = workflow_command (x ∷ xs) line_whitespace in
        (if command then append_escaped_byte x owner else append character kind owner)
        >>= write_escaped_from (if command then 0 else size - 1)
            (if command then false else next_line_whitespace u line_whitespace kind character)
            (not command && is_line_feed kind) xs

    unfoldable pub write_escaped : Sink → Bytes → Error × Sink
    write_escaped output value =
        let (e, owner) =
          write_escaped_from 0 true false value (record { output = output; buffer = [] }) in
        (e, owner.output)

    unfoldable pub write : Sink → Bytes → Error × Sink
    write output [] = ([], output)
    write output (x ∷ xs) =
        if safe u (x ∷ xs)
        then (bytes w output (x ∷ xs) >>= λ o.
            if not (ends_with_newline (x ∷ xs)) then bytes w o (codes "\n") else ([], o))
        else write_escaped output (x ∷ xs)
