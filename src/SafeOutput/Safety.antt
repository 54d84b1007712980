-- ===== src/SafeOutput/Safety.antt =====
-- What the reference of internal/safeoutput appends passes the test `safe`.
use verify.Prelude.{
  All, Bool, [], ap, append_assoc, arith, false, length, refl, suc, take, zero, ℕ, ◌%◌, ◌++◌, ◌-◌,
  ◌/◌, ◌<◌, ◌∙◌, ◌∷◌, ◌≡◌, ◌≢◌, length-take, sym, take-append, take-cons,
}
use verify.Text.{Bytes}
use verify.Text.Utf8.{Unicode}
use verify.Text.Utf8.Laws.{decode_rune_ascii}
use verify.SafeOutput.Escape.{classify-stable, classify_some, classify_there}
use verify.SafeOutput.{
  classify, escaped_byte, escaped_bytes, hexadecimal_digit, is_unsafe, next_line_whitespace,
  printable, safe_from, workflow_command, CharacterKind,
}

-- A byte of a value.
abbrev pub IsByte : ℕ → Type 0
IsByte b = b < 256

-- Visible ASCII that begins no workflow command.
record IsPlain (c : ℕ) : Type 0 where
  above : 32 < c
  below : c < 127
  not_colon : c ≢ b':'
  not_hash : c ≢ b'#'

digit-IsPlain : (n : ℕ) → n < 16 → IsPlain (hexadecimal_digit n)
unfolding hexadecimal_digit
digit-IsPlain n h = ground arith

module _ (u : Unicode) where
  pub safe_from_step :
      (lw : Bool) (x : ℕ) (xs : Bytes)
      → workflow_command (x ∷ xs) lw ≡ false
      → is_unsafe (classify u (x ∷ xs)).0 ≡ false
      → safe_from u 0 lw (x ∷ xs)
        ≡ safe_from u
            ((classify u (x ∷ xs)).1 - 1)
            (next_line_whitespace u lw
              (classify u (x ∷ xs)).0
              (take (classify u (x ∷ xs)).1 (x ∷ xs)))
            xs
  unfolding safe_from
  safe_from_step lw x xs c s = rw (c, s)

  pub safe_from_skip :
      (t rest : Bytes) (k : ℕ) (lw : Bool)
      → length t ≡ k
      → safe_from u k lw (t ++ rest) ≡ safe_from u 0 lw rest
  unfolding safe_from
  safe_from_skip [] rest zero lw h = refl
  safe_from_skip [] rest (suc k) lw h = absurd (omega arith)
  safe_from_skip (x ∷ t) rest zero lw h = absurd (omega arith)
  safe_from_skip (x ∷ t) rest (suc k) lw h = safe_from_skip t rest k lw (omega arith)

  plain-command :
      (lw : Bool) (c : ℕ) (rest : Bytes) → IsPlain c → workflow_command (c ∷ rest) lw ≡ false
  unfolding workflow_command
  plain-command lw c rest p = ground arith

  plain-classify : (c : ℕ) (rest : Bytes) → IsPlain c → classify u (c ∷ rest) ≡ (printable, 1)
  unfolding classify
  plain-classify c rest p = ground arith

  plain-next :
      (lw : Bool) (c : ℕ) → IsPlain c → next_line_whitespace u lw printable (c ∷ []) ≡ false
  unfolding next_line_whitespace
  plain-next lw c p = ground (arith, decode_rune_ascii c [], Unicode.is_space_ascii u c)

  safe_from-plain :
      (lw : Bool) (c : ℕ) (rest : Bytes)
      → IsPlain c
      → safe_from u 0 lw (c ∷ rest) ≡ safe_from u 0 false rest
  safe_from-plain lw c rest p =
      let k = plain-classify c rest p in
      safe_from_step lw c rest (plain-command lw c rest p) (rw k) ∙ rw (k, plain-next lw c p)

  pub safe_from-escaped_byte :
      (lw : Bool) (x : ℕ) (rest : Bytes)
      → IsByte x
      → safe_from u 0 lw (escaped_byte x ++ rest) ≡ safe_from u 0 false rest
  unfolding escaped_byte
  safe_from-escaped_byte lw x rest h =
      safe_from-plain lw b'\\' _ (ground arith)
      ∙ safe_from-plain false b'x' _ (ground arith)
      ∙ safe_from-plain false _ _ (digit-IsPlain (x / 16) (omega arith))
      ∙ safe_from-plain false _ _ (digit-IsPlain (x % 16) (omega arith))

  pub safe_from-escaped_bytes :
      (lw : Bool) (x : ℕ) (t rest : Bytes)
      → All IsByte (x ∷ t)
      → safe_from u 0 lw (escaped_bytes (x ∷ t) ++ rest) ≡ safe_from u 0 false rest
  unfolding escaped_bytes
  safe_from-escaped_bytes lw x [] rest h =
      ap (safe_from u 0 lw) (append_assoc (escaped_byte x) [] rest)
      ∙ safe_from-escaped_byte lw x rest h.0
  safe_from-escaped_bytes lw x (y ∷ t) rest h =
      ap (safe_from u 0 lw) (append_assoc (escaped_byte x) (escaped_bytes (y ∷ t)) rest)
      ∙ safe_from-escaped_byte lw x _ h.0
      ∙ safe_from-escaped_bytes false y t rest h.1

  -- A character that is kept is passed over, as it was in the text that it comes from.
  pub safe_from-kept :
      (lw : Bool) (x : ℕ) (xs b : Bytes)
      → let n = (classify u (x ∷ xs)).1 in
        workflow_command (take n (x ∷ xs) ++ b) lw ≡ false
        → is_unsafe (classify u (x ∷ xs)).0 ≡ false
        → safe_from u 0 lw (take (classify u (x ∷ xs)).1 (x ∷ xs) ++ b)
          ≡ safe_from u 0
              (next_line_whitespace u lw
                (classify u (x ∷ xs)).0
                (take (classify u (x ∷ xs)).1 (x ∷ xs)))
              b
  safe_from-kept lw x xs b c s =
      let n = (classify u (x ∷ xs)).1 in
      let some_byte = classify_some u x xs in
      let there = classify_there u x xs in
      let k = classify-stable u x xs b s in
      let fits : length (take (n - 1) xs) ≡ n - 1 = omega (arith, length-take (n - 1) xs) in
      let shape : take n (x ∷ xs) ++ b ≡ x ∷ (take (n - 1) xs ++ b) =
        ap (λ (t : Bytes). t ++ b) (take-cons n x xs some_byte) in
      let again : take n (x ∷ (take (n - 1) xs ++ b)) ≡ take n (x ∷ xs) =
        take-cons n x (take (n - 1) xs ++ b) some_byte
        ∙ ap (◌∷◌ x) (take-append (n - 1) (take (n - 1) xs) b fits)
        ∙ sym (take-cons n x xs some_byte) in
      ap (safe_from u 0 lw) shape
      ∙ safe_from_step lw x (take (n - 1) xs ++ b) (ap (λ t. workflow_command t lw) (sym shape) ∙ c)
          (ap (λ r. is_unsafe r.0) k ∙ s)
      ∙ ap
          (λ (r : CharacterKind × ℕ).
            safe_from u (r.1 - 1)
              (next_line_whitespace u lw r.0 (take r.1 (x ∷ (take (n - 1) xs ++ b))))
              (take (n - 1) xs ++ b))
          k
      ∙ safe_from_skip (take (n - 1) xs) b (n - 1) _ fits
      ∙ ap (λ t. safe_from u 0 (next_line_whitespace u lw (classify u (x ∷ xs)).0 t) b) again
