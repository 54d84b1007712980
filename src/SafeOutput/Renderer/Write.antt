-- ===== src/SafeOutput/Renderer/Write.antt =====
-- `Write` of internal/safeoutput: both of its paths deliver the text of the reference.
use verify.Prelude.{
  All, Bool, Bool-cases, [], ap, append-nil, append_assoc, arith, dec_lt, drop, false,
  if◌then◌else◌, inl, inr, length, not, refl, subst, suc, sym, take, take-append-drop, take-cons,
  true, zero, ℕ, ◌++◌, ◌-◌, ◌==◌, ◌∙◌, ◌∷◌, ◌≡◌, ◌≢◌, ◌≤◌, ◌⊎◌,
}
use verify.SafeOutput.Renderer.{ends_with_newline, write, ◌>>=◌}
use verify.Text.{Bytes, codes}
use verify.Text.Utf8.{Unicode}
use verify.Text.Utf8.Laws.{IsHigh, decode_rune-Spans}
use verify.SafeOutput.{
  ascii_delete, classify, is_line_feed, is_unsafe, next_line_whitespace, safe, safe_from,
  workflow_command,
}
use verify.SafeOutput.Escape.{
  classify-high_size, classify-line_feed, classify_ascii, escape_from, kept_as_is, newline_unless,
  behind, classify_some, classify_there, escape_from_kept, escape_from_nil, escape_from_skip,
}
use verify.ExactWrite.{Writer, bytes}
use verify.ExactWrite.Delivery.{bytes_complete}
use verify.SafeOutput.Shown.{safe_from-escape_from}
use verify.SafeOutput.Safety.{IsByte, safe_from_step}
use verify.Errors.{Error}
use verify.SafeOutput.Renderer.Stream.{write_escaped_complete}

abbrev ends_from : Bool → Bytes → Bool
ends_from last [] = last
ends_from last (x ∷ xs) = ends_with_newline (x ∷ xs)

ends_from-high : (x : ℕ) (xs : Bytes) → IsHigh x → ends_from false (x ∷ xs) ≡ ends_from false xs
ends_from-high x [] h = ground arith
ends_from-high x (y ∷ xs) h = refl

ends_from-last :
    (b : Bool) (x : ℕ) (xs : Bytes) → b ≡ (x == b'\n') → ends_from b xs ≡ ends_with_newline (x ∷ xs)
ends_from-last b x [] h = h
ends_from-last b x (y ∷ xs) h = refl

-- A byte of a text: no control byte of ASCII but a tab or a line feed.
abbrev pub IsTextByte : ℕ → Type 0
IsTextByte b = (b ≡ b'\t') ⊎ (b ≡ b'\n') ⊎ ((32 ≤ b) × (b ≢ ascii_delete))

module _ (u : Unicode) where
  -- What `safe` found out about the first character.
  safe_from-parts :
      (lw : Bool) (x : ℕ) (xs : Bytes)
      → safe_from u 0 lw (x ∷ xs) ≡ true
      → (workflow_command (x ∷ xs) lw ≡ false) × (is_unsafe (classify u (x ∷ xs)).0 ≡ false)
  unfolding safe_from
  safe_from-parts lw x xs h = ground arith

  safe_from_rest :
      (lw : Bool) (x : ℕ) (xs : Bytes) (k : ℕ)
      → safe_from u (suc k) lw (x ∷ xs) ≡ true
      → safe_from u k lw xs ≡ true
  unfolding safe_from
  safe_from_rest lw x xs k h = h

  -- The bytes of the first character behind its first byte, and whether it is a line feed.
  rest-IsHigh : (x : ℕ) (xs : Bytes) → All IsHigh (take ((classify u (x ∷ xs)).1 - 1) xs)
  rest-IsHigh x xs = elim (dec_lt x 0x80) [
    | yes l ↦
        let e : (classify u (x ∷ xs)).1 - 1 ≡ 0 = omega (arith, classify_ascii u x xs l) in
        subst (λ k. All IsHigh (take k xs)) (sym e) tt
    | no h ↦
        let high : IsHigh x = omega arith in
        let s = decode_rune-Spans x xs high in
        subst (λ k. All IsHigh (take (k - 1) xs)) (sym (classify-high_size u x xs high))
          (subst (All IsHigh) (take-cons _ x xs s.some_byte) s.high).1
  ]

  skip-line_feed :
      (x : ℕ) (xs : Bytes)
      → 1 ≤ (classify u (x ∷ xs)).1 - 1
      → is_line_feed (classify u (x ∷ xs)).0 ≡ false
  skip-line_feed x xs h = ground (arith, classify-line_feed u x xs, classify_ascii u x xs)

  escape_from-safe :
      (v : Bytes) (k : ℕ) (lw last : Bool)
      → safe_from u k lw v ≡ true
      → All IsHigh (take k v)
      → k ≤ length v
      → (1 ≤ k → last ≡ false)
      → escape_from u kept_as_is newline_unless k lw last v
        ≡ drop k v ++ newline_unless (ends_from last v)
  escape_from-safe [] zero lw last h a l f = escape_from_nil u kept_as_is newline_unless 0 lw last
  escape_from-safe [] (suc k) lw last h a l f = absurd (omega arith)
  escape_from-safe (x ∷ xs) (suc k) lw last h a l f =
      let plain : last ≡ false = f (omega arith) in
      escape_from_skip u kept_as_is newline_unless k lw last x xs
      ∙ escape_from-safe xs k lw last (safe_from_rest lw x xs k h) a.1 (omega arith) (λ _. plain)
      ∙ ap (λ b. drop k xs ++ newline_unless b) (rw plain (sym (ends_from-high x xs a.0)))
  escape_from-safe (x ∷ xs) zero lw last h a l f =
      let (kind, n) = classify u (x ∷ xs) in
      let parts = safe_from-parts lw x xs h in
      let some_byte = classify_some u x xs in
      let there = classify_there u x xs in
      let next = next_line_whitespace u lw kind (take n (x ∷ xs)) in
      let shape = take-cons n x xs some_byte in
      escape_from_kept u kept_as_is newline_unless lw last x xs parts.0 (rw parts.1)
      ∙ ap (λ (t : Bytes). t ++ behind u kept_as_is newline_unless lw last x xs) shape
      ∙ ap (λ t. x ∷ (take (n - 1) xs ++ t))
          (escape_from-safe xs (n - 1) next (is_line_feed kind)
            (sym (safe_from_step u lw x xs parts.0 parts.1) ∙ h) (rest-IsHigh x xs) (omega arith)
            (skip-line_feed x xs))
      ∙ ap (◌∷◌ x) (
          sym (append_assoc (take (n - 1) xs) (drop (n - 1) xs) _)
          ∙ ap (λ (t : Bytes). t ++ newline_unless (ends_from (is_line_feed kind) xs))
              (take-append-drop (n - 1) xs))
      ∙ ap (λ b. x ∷ (xs ++ newline_unless b))
          (ends_from-last (is_line_feed kind) x xs (classify-line_feed u x xs))

  -- The first byte of a character that is not unsafe.
  classify-IsTextByte :
      (x : ℕ) (xs : Bytes) → is_unsafe (classify u (x ∷ xs)).0 ≡ false → IsTextByte x
  unfolding classify
  classify-IsTextByte x xs h = elim (Bool-cases (x == b'\n')) [
    | inl feed ↦ inr (inl (ground arith))
    | inr no_feed ↦ elim (Bool-cases (x == b'\t')) [
      | inl tab ↦ inl (ground arith)
      | inr no_tab ↦ inr (inr (ground arith, ground arith))
    ]
  ]

  -- What passes the test `safe` has no control byte of ASCII but tabs and line feeds.
  safe_from-IsTextByte :
      (v : Bytes) (k : ℕ) (lw : Bool)
      → safe_from u k lw v ≡ true
      → All IsHigh (take k v)
      → All IsTextByte v
  safe_from-IsTextByte [] k lw h a = tt
  safe_from-IsTextByte (x ∷ xs) (suc k) lw h a = (
    inr (inr (omega (arith, a.0), λ (e : x ≡ ascii_delete). omega (arith, a.0, e))),
    safe_from-IsTextByte xs k lw (safe_from_rest lw x xs k h) a.1,
  )
  safe_from-IsTextByte (x ∷ xs) zero lw h a =
      let (kind, n) = classify u (x ∷ xs) in
      let parts = safe_from-parts lw x xs h in
      (
        classify-IsTextByte x xs parts.1,
        safe_from-IsTextByte xs (n - 1) (next_line_whitespace u lw kind (take n (x ∷ xs)))
            (sym (safe_from_step u lw x xs parts.0 parts.1) ∙ h) (rest-IsHigh x xs),
      )

-- What `Write` shows for a value.
pub shown : Unicode → Bytes → Bytes
shown u [] = []
shown u (x ∷ xs) = escape_from u kept_as_is newline_unless 0 true false (x ∷ xs)

-- A safe value is shown as it is, with a line feed behind it if it ends in none.
shown-safe :
    (u : Unicode) (x : ℕ) (xs : Bytes)
    → safe u (x ∷ xs) ≡ true
    → shown u (x ∷ xs) ≡ (x ∷ xs) ++ newline_unless (ends_with_newline (x ∷ xs))
unfolding safe shown
shown-safe u x xs h = escape_from-safe u (x ∷ xs) 0 true false h tt (omega arith) (λ l. refl)

-- Everything shown passes the test `safe`, for any bytes given.
safe-shown : (u : Unicode) (v : Bytes) → All IsByte v → safe u (shown u v) ≡ true
unfolding safe shown
safe-shown u [] b = unfold safe_from in refl
safe-shown u (x ∷ xs) b =
    safe_from-escape_from u kept_as_is newline_unless
      (record { kept = λ k y h. ground arith; ends = λ last. ends_newline last }) (x ∷ xs) 0 true
      true false b (λ h. h)
  where
    ends_newline : (last : Bool) → (newline_unless last ≡ []) ⊎ (newline_unless last ≡ b'\n' ∷ [])
    ends_newline true = inl refl
    ends_newline false = inr refl

module _ (w : Writer) (u : Unicode) where
  open w use {Sink, received}

  write_safe :
      (s : Sink) (x : ℕ) (xs : Bytes)
      → ((if not (ends_with_newline (x ∷ xs)) then bytes w s (codes "\n") else ([], s)).0 ≡ [])
      → received (if not (ends_with_newline (x ∷ xs)) then bytes w s (codes "\n") else ([], s)).1
        ≡ received s ++ newline_unless (ends_with_newline (x ∷ xs))
  write_safe s x xs e = elim (Bool-cases (ends_with_newline (x ∷ xs))) [
    | inl b ↦ rw b (sym (append-nil (received s)))
    | inr b ↦ rw b (bytes_complete w s (codes "\n") (rw b at e))
  ]

  >>=-complete :
      (m : Error × Sink) (f : Sink → Error × Sink) (s t : Bytes)
      → (m.0 ≡ [] → received m.1 ≡ s)
      → ((o : Sink) → (f o).0 ≡ [] → received (f o).1 ≡ received o ++ t)
      → (m >>= f).0 ≡ []
      → received (m >>= f).1 ≡ s ++ t
  >>=-complete ([], o) f s t h k e = k o e ∙ ap (λ (z : Bytes). z ++ t) (h refl)
  >>=-complete (c ∷ cs, o) f s t h k e = absurd (cc)

  -- Without an error, `Write` has put on the stream exactly what is shown for the value, on its fast
  -- path and through the renderer.
  pub write_complete :
      (s : Sink) (v : Bytes)
      → (write w u s v).0 ≡ []
      → received (write w u s v).1 ≡ received s ++ shown u v
  unfolding write
  write_complete s [] e = unfold shown in sym (append-nil (received s))
  write_complete s (x ∷ xs) e = elim (Bool-cases (safe u (x ∷ xs))) [
    | inl fast ↦ rw fast (
        >>=-complete (bytes w s (x ∷ xs)) _ (received s ++ x ∷ xs)
          (newline_unless (ends_with_newline (x ∷ xs))) (bytes_complete w s (x ∷ xs))
          (λ o. write_safe o x xs) (rw fast at e)
        ∙ append_assoc (received s) (x ∷ xs) (newline_unless (ends_with_newline (x ∷ xs)))
        ∙ ap (λ t. received s ++ t) (sym (shown-safe u x xs fast)))
    | inr slow ↦ rw slow (unfold shown in write_escaped_complete w u s (x ∷ xs) (rw slow at e))
  ]

  -- Without an error, `Write` has put on the stream, behind what was there, a text that passes the test
  -- `safe` and has no control byte of ASCII but tabs and line feeds, whatever bytes it was given.
  pub safe-write :
      (s : Sink) (v : Bytes)
      → All IsByte v
      → (write w u s v).0 ≡ []
      → (text : Bytes) × (received (write w u s v).1 ≡ received s ++ text)
        × (safe u text ≡ true)
        × All IsTextByte text
  unfolding safe
  safe-write s v b e =
      let clean = safe-shown u v b in
      (shown u v, write_complete s v e, clean, safe_from-IsTextByte u (shown u v) 0 true clean tt)
