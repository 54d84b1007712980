-- ===== src/SafeOutput/Renderer/Stream.antt =====
-- The renderer delivers what the reference of internal/safeoutput appends.
use verify.Prelude.{
  [], ap, append-nil, refl, sym, ℕ, ◌++◌, ◌∙◌, ◌∷◌, ◌≡◌, Bool, append_assoc, false, if◌then◌else◌,
  length, true, ◌==◌, not, suc, take, zero, ◌&&◌, ◌-◌,
}
use verify.SafeOutput.Renderer.{
  Renderer, append_byte, flush, flush_bytes, ◌>>=◌, append_bytes, escape_buffer_bytes, flushed,
  append, append_escaped, append_escaped_byte, write_escaped, write_escaped_from,
}
use verify.Text.{Bytes}
use verify.Errors.{Error}
use verify.ExactWrite.{Writer, bytes}
use verify.ExactWrite.Delivery.{bytes_complete}
use verify.Text.Utf8.{Unicode}
use verify.SafeOutput.{
  CharacterKind, classify, escaped_byte, escaped_bytes, is_line_feed, is_unsafe, line_feed,
  next_line_whitespace, printable, unsafe, workflow_command,
}
use verify.SafeOutput.Escape.{escape_from, kept_as_is, newline_unless}

module _ (w : Writer) where
  open w use {Sink, received}

  -- What has been appended so far: the stream, and the bytes still in the buffer.
  abbrev content : Renderer Sink → Bytes
  content r = received r.output ++ r.buffer

  -- A method that, without an error, has appended `t`.
  record Appends (t : Bytes) (f : Renderer Sink → Error × Renderer Sink) : Type 0 where
    at : (r : Renderer Sink) → (f r).0 ≡ [] → content (f r).1 ≡ content r ++ t

  >>=-Appends :
      (m : Error × Renderer Sink) (f : Renderer Sink → Error × Renderer Sink) (s t : Bytes)
      → (m.0 ≡ [] → content m.1 ≡ s)
      → Appends t f
      → (m >>= f).0 ≡ []
      → content (m >>= f).1 ≡ s ++ t
  >>=-Appends ([], r) f s t h a e = a.at r e ∙ ap (λ (z : Bytes). z ++ t) (h refl)
  >>=-Appends (c ∷ cs, r) f s t h a e = absurd (cc)

  flushed-Appends :
      (o : Sink) (b : Bytes) (r : Error × Sink)
      → (r.0 ≡ [] → received r.1 ≡ received o ++ b)
      → (flushed w b r).0 ≡ []
      → content (flushed w b r).1 ≡ received o ++ b
  unfolding flushed
  flushed-Appends o b ([], o') h e = append-nil (received o') ∙ h refl
  flushed-Appends o b (c ∷ cs, o') h e = absurd (cc)

  flush_bytes-Appends :
      (o : Sink) (b : Bytes)
      → (flush_bytes w o b).0 ≡ []
      → content (flush_bytes w o b).1 ≡ received o ++ b
  unfolding flush_bytes
  flush_bytes-Appends o [] e = refl
  flush_bytes-Appends o (x ∷ xs) e =
      flushed-Appends o (x ∷ xs) (bytes w o (x ∷ xs)) (bytes_complete w o (x ∷ xs)) e

  flush-Appends : Appends [] (flush w)
  unfolding flush
  flush-Appends = record {
    at = λ r e. flush_bytes-Appends r.output r.buffer e ∙ sym (append-nil (content r));
  }

  pure-Appends : (x : ℕ) → Appends (x ∷ []) (λ o. ([], record o { buffer = o.buffer ++ x ∷ [] }))
  pure-Appends x = record { at = λ r e. sym (append_assoc (received r.output) r.buffer (x ∷ [])) }

  if-Appends :
      (b : Bool) (t : Bytes) (f g : Renderer Sink → Error × Renderer Sink)
      → Appends t f
      → Appends t g
      → (r : Renderer Sink) → (if b then f r else g r).0 ≡ []
      → content (if b then f r else g r).1 ≡ content r ++ t
  if-Appends true t f g hf hg = hf.at
  if-Appends false t f g hf hg = hg.at

  nothing-Appends : Appends [] (λ r. ([], r))
  nothing-Appends = record { at = λ r e. sym (append-nil (content r)) }

  append_byte-Appends : (x : ℕ) → Appends (x ∷ []) (append_byte w x)
  append_byte-Appends x = record {
    at = λ r e.
        unfold append_byte in
        >>=-Appends _ _ (content r) (x ∷ [])
          (λ h.
            if-Appends (length r.buffer == escape_buffer_bytes) [] (flush w) (λ o. ([], o))
              flush-Appends nothing-Appends r h
            ∙ append-nil (content r))
          (pure-Appends x) e;
  }

  seq-Appends :
      (s t : Bytes) (f g : Renderer Sink → Error × Renderer Sink)
      → Appends s f
      → Appends t g
      → Appends (s ++ t) (λ r. f r >>= g)
  seq-Appends s t f g hf hg = record {
    at =
        λ r e. >>=-Appends (f r) g (content r ++ s) t (hf.at r) hg e ∙ append_assoc (content r) s t;
  }

  append_bytes-Appends : (t : Bytes) → Appends t (append_bytes w t)
  unfolding append_bytes
  append_bytes-Appends [] = record { at = nothing-Appends.at }
  append_bytes-Appends (x ∷ t) = record {
    at =
        (seq-Appends (x ∷ []) t (append_byte w x) (append_bytes w t) (append_byte-Appends x)
          (append_bytes-Appends t)).at;
  }

  append_escaped_byte-Appends : (x : ℕ) → Appends (escaped_byte x) (append_escaped_byte w x)
  unfolding append_escaped_byte
  append_escaped_byte-Appends x = append_bytes-Appends (escaped_byte x)

  append_escaped-Appends : (t : Bytes) → Appends (escaped_bytes t) (append_escaped w t)
  unfolding append_escaped escaped_bytes
  append_escaped-Appends [] = record { at = nothing-Appends.at }
  append_escaped-Appends (x ∷ t) = record {
    at =
        (seq-Appends (escaped_byte x) (escaped_bytes t) (append_escaped_byte w x)
          (append_escaped w t) (append_escaped_byte-Appends x) (append_escaped-Appends t)).at;
  }

  -- What one turn of the loop appends, and then the rest of it.
  turn-Appends :
      (command : Bool) (kind : CharacterKind) (x : ℕ) (t rest : Bytes)
      (g : Renderer Sink → Error × Renderer Sink)
      → Appends rest g
      → Appends
          (if command
            then escaped_byte x ++ rest
            else if not (is_unsafe kind)
            then t ++ rest
            else escaped_bytes t ++ rest)
          (λ r. (if command then append_escaped_byte w x r else append w t kind r) >>= g)
  unfolding append
  turn-Appends true kind x t rest g h = seq-Appends _ rest _ g (append_escaped_byte-Appends x) h
  turn-Appends false printable x t rest g h = seq-Appends t rest _ g (append_bytes-Appends t) h
  turn-Appends false line_feed x t rest g h = seq-Appends t rest _ g (append_bytes-Appends t) h
  turn-Appends false unsafe x t rest g h = seq-Appends _ rest _ g (append_escaped-Appends t) h

  record Empties (f : Renderer Sink → Error × Renderer Sink) : Type 0 where
    at : (r : Renderer Sink) → (f r).0 ≡ [] → (f r).1.buffer ≡ []

  >>=-Empties :
      (m : Error × Renderer Sink) (f : Renderer Sink → Error × Renderer Sink)
      → Empties f
      → (m >>= f).0 ≡ []
      → (m >>= f).1.buffer ≡ []
  >>=-Empties ([], r) f h e = h.at r e
  >>=-Empties (c ∷ cs, r) f h e = absurd (cc)

  flushed-Empties :
      (b : Bytes) (r : Error × Sink) → (flushed w b r).0 ≡ [] → (flushed w b r).1.buffer ≡ []
  unfolding flushed
  flushed-Empties b ([], o) e = refl
  flushed-Empties b (c ∷ cs, o) e = absurd (cc)

  flush_bytes-Empties :
      (o : Sink) (b : Bytes) → (flush_bytes w o b).0 ≡ [] → (flush_bytes w o b).1.buffer ≡ []
  unfolding flush_bytes
  flush_bytes-Empties o [] e = refl
  flush_bytes-Empties o (x ∷ xs) e = flushed-Empties (x ∷ xs) (bytes w o (x ∷ xs)) e

  flush-Empties : Empties (flush w)
  unfolding flush
  flush-Empties = record { at = λ r. flush_bytes-Empties r.output r.buffer }

  module _ (u : Unicode) where
    ending-Appends :
        (last : Bool)
        → Appends
            (newline_unless last)
            (λ r. (if not last then append_byte w b'\n' r else ([], r)) >>= flush w)
    ending-Appends true = seq-Appends [] [] (λ r. ([], r)) (flush w) nothing-Appends flush-Appends
    ending-Appends false =
        seq-Appends (b'\n' ∷ []) [] (append_byte w b'\n') (flush w) (append_byte-Appends b'\n')
          flush-Appends

    write_escaped_from-Appends :
        (v : Bytes) (k : ℕ) (lw last : Bool)
        → Appends
            (escape_from u kept_as_is newline_unless k lw last v)
            (write_escaped_from w u k lw last v)
    unfolding write_escaped_from escape_from
    write_escaped_from-Appends [] k lw last = record { at = (ending-Appends last).at }
    write_escaped_from-Appends (x ∷ xs) (suc k) lw last = record {
      at = (write_escaped_from-Appends xs k lw last).at;
    }
    write_escaped_from-Appends (x ∷ xs) zero lw last = record {
      at =
          let (kind, size) = classify u (x ∷ xs) in
          let character = take size (x ∷ xs) in
          let command = workflow_command (x ∷ xs) lw in
          (turn-Appends command kind x character _ _ (
            write_escaped_from-Appends xs (if command then 0 else size - 1)
              (if command then false else next_line_whitespace u lw kind character)
              (not command && is_line_feed kind))).at;
    }

    -- Behind the last flush nothing is left in the buffer.
    write_escaped_from-Empties :
        (v : Bytes) (k : ℕ) (lw last : Bool) → Empties (write_escaped_from w u k lw last v)
    unfolding write_escaped_from
    write_escaped_from-Empties [] k lw last = record {
      at = λ r. >>=-Empties _ (flush w) flush-Empties;
    }
    write_escaped_from-Empties (x ∷ xs) (suc k) lw last = record {
      at = (write_escaped_from-Empties xs k lw last).at;
    }
    write_escaped_from-Empties (x ∷ xs) zero lw last = record {
      at = λ r.
          let (kind, size) = classify u (x ∷ xs) in
          let command = workflow_command (x ∷ xs) lw in
          >>=-Empties _ _ (
            write_escaped_from-Empties xs (if command then 0 else size - 1)
              (if command then false else next_line_whitespace u lw kind (take size (x ∷ xs)))
              (not command && is_line_feed kind));
    }

    pub write_escaped_complete :
        (s : Sink) (v : Bytes)
        → (write_escaped w u s v).0 ≡ []
        → received (write_escaped w u s v).1
          ≡ received s ++ escape_from u kept_as_is newline_unless 0 true false v
    unfolding write_escaped
    write_escaped_complete s v e =
        let r0 : Renderer Sink = record { output = s; buffer = [] } in
        let r = (write_escaped_from w u 0 true false v r0).1 in
        sym (append-nil (received r.output))
        ∙ ap (λ b. received r.output ++ b)
            (sym ((write_escaped_from-Empties v 0 true false).at r0 e))
        ∙ (write_escaped_from-Appends v 0 true false).at r0 e
        ∙ ap (λ (t : Bytes). t ++ escape_from u kept_as_is newline_unless 0 true false v)
            (append-nil (received s))
