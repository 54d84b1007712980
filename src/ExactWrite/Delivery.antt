-- ===== src/ExactWrite/Delivery.antt =====
-- What reaches the stream of the writer under `bytes` of internal/exactwrite.
use verify.Prelude.{
  [], ap, append-nil, append_assoc, arith, drop, length, suc, sym, take, take-append-drop, zero, ℕ,
  ◌++◌, ◌∙◌, ◌∷◌, ◌≡◌, ◌≢◌, ◌≤◌, refl, false, length-drop, ltb, subst, take-append-take, ◌+◌,
  negsuc, pos, ℤ, inl, inr, ◌⊎◌,
}
use verify.Text.{Bytes}
use verify.Errors.{Error, Cause, no_progress}
use verify.ExactWrite.{Writer, after, loop, bytes}

-- The contract of `io.Writer` on the count: from 0 to the length.
pub record IsConforming (w : Writer) : Type 0 where
  pub counts :
      (s : Writer.Sink w) (v : Bytes)
      → (n : ℕ) × (((Writer.write w) s v).0.count ≡ pos n) × (n ≤ length v)

-- `arrived` of the bytes of `v`, from its front, went behind `before`; all of them, if the error is
-- nil.
pub record IsPrefixOf (before after v : Bytes) (e : Error) : Type 0 where
  pub arrived : ℕ
  pub within : arrived ≤ length v
  pub stream : after ≡ before ++ take arrived v
  pub whole : (e ≢ []) ⊎ (arrived ≡ length v)

module _ {ℓ} {S : Type ℓ} where
  after-nil :
      (size : ℕ) (c : ℤ) (e : Error) (s : S) (more : ℕ → Error × S) {s' : S}
      → after size (record { count = c; error = e }) s more ≡ ([], s')
      → (k : ℕ) × (c ≡ pos (suc k)) × (suc k ≤ size) × (more k ≡ ([], s'))
  after-nil size (negsuc n) e s more h = absurd (ground arith)
  after-nil size (pos zero) [] s more h = absurd (ground arith)
  after-nil size (pos zero) (c ∷ cs) s more h = absurd (ground arith)
  after-nil size (pos (suc k)) [] s more h = (k, ground arith, ground arith, ground arith)
  after-nil size (pos (suc k)) (c ∷ cs) s more h = absurd (ground arith)

module _ (w : Writer) where
  open w use {Sink, write, received, write_received}

  loop_complete :
      (s : Sink) (k : ℕ) (xs : Bytes) {s' : Sink}
      → loop w s k xs ≡ ([], s')
      → received s' ≡ received s ++ drop k xs
  unfolding loop
  loop_complete s zero [] h = ap received (ap (λ r. r.1) (sym h)) ∙ sym (append-nil (received s))
  loop_complete s (suc k) [] h = ap received (ap (λ r. r.1) (sym h)) ∙ sym (append-nil (received s))
  loop_complete s (suc k) (x ∷ xs) h = loop_complete s k xs h
  loop_complete s zero (x ∷ xs) h =
      let s1 = (write s (x ∷ xs)).1 in
      let (k, counted, fits, rest) =
        after-nil (length (x ∷ xs)) (write s (x ∷ xs)).0.count (write s (x ∷ xs)).0.error s1
          (λ k. loop w s1 k xs) h in
      loop_complete s1 k xs rest
      ∙ ap (λ (t : Bytes). t ++ drop k xs) (write_received s (x ∷ xs) (suc k) counted fits)
      ∙ append_assoc (received s) (x ∷ take k xs) (drop k xs)
      ∙ ap (λ t. received s ++ x ∷ t) (take-append-drop k xs)

  -- A nil error means that the whole value reached the stream, behind what was there, whatever
  -- counts the writer returned on the way.
  pub bytes_complete :
      (s : Sink) (value : Bytes)
      → (bytes w s value).0 ≡ []
      → received (bytes w s value).1 ≡ received s ++ value
  unfolding bytes
  bytes_complete s value h = loop_complete s 0 value (ap (λ e. (e, (loop w s 0 value).1)) h)

  module _ (conforms : IsConforming w) where
    -- A stop with an error after `n` bytes.
    stopped :
        (s s1 : Sink) (v : Bytes) (n : ℕ) (c : Cause) (cs : Error)
        → n ≤ length v
        → received s1 ≡ received s ++ take n v
        → IsPrefixOf (received s) (received s1) v (c ∷ cs)
    stopped s s1 v n c cs fits e = record {
      arrived = n;
      within = fits;
      stream = e;
      whole = inl (λ h. absurd (cc));
    }

    extended :
        (before middle final : Bytes) (x : ℕ) (k : ℕ) (xs : Bytes) (e : Error)
        → k ≤ length xs
        → middle ≡ before ++ x ∷ take k xs
        → IsPrefixOf middle final (drop k xs) e
        → IsPrefixOf before final (x ∷ xs) e
    extended before middle final x k xs e fits m p = record {
      arrived = suc (k + p.arrived);
      within = omega (arith, p.within, length-drop k xs);
      stream =
          p.stream
          ∙ ap (λ (t : Bytes). t ++ take p.arrived (drop k xs)) m
          ∙ append_assoc before (x ∷ take k xs) (take p.arrived (drop k xs))
          ∙ ap (λ t. before ++ x ∷ t) (take-append-take k p.arrived xs);
      whole = elim p.whole [ inl n ↦ inl n | inr h ↦ inr (omega (arith, h, length-drop k xs)) ];
    }

    after-prefix :
        (s s1 : Sink) (x : ℕ) (xs : Bytes) (n : ℕ) (e : Error)
        → n ≤ length (x ∷ xs)
        → received s1 ≡ received s ++ take n (x ∷ xs)
        → ((k : ℕ)
            → IsPrefixOf (received s1) (received (loop w s1 k xs).1) (drop k xs) (loop w s1 k xs).0)
        → let r =
            after
              (length (x ∷ xs))
              (record { count = pos n; error = e })
              s1
              (λ k. loop w s1 k xs) in
          IsPrefixOf (received s) (received r.1) (x ∷ xs) r.0
    after-prefix s s1 x xs zero [] fits m ih = stopped s s1 (x ∷ xs) zero no_progress [] fits m
    after-prefix s s1 x xs zero (c ∷ cs) fits m ih = stopped s s1 (x ∷ xs) zero c cs fits m
    after-prefix s s1 x xs (suc k) [] fits m ih =
        let t : ltb (suc (length xs)) (suc k) ≡ false = ground arith in
        rw t (
          extended (received s) (received s1) (received (loop w s1 k xs).1) x k xs
            (loop w s1 k xs).0 (omega arith) m (ih k))
    after-prefix s s1 x xs (suc k) (c ∷ cs) fits m ih =
        let t : ltb (suc (length xs)) (suc k) ≡ false = ground arith in
        rw t (stopped s s1 (x ∷ xs) (suc k) c cs fits m)

    loop-prefix :
        (s : Sink) (k : ℕ) (xs : Bytes)
        → IsPrefixOf (received s) (received (loop w s k xs).1) (drop k xs) (loop w s k xs).0
    unfolding loop
    loop-prefix s zero [] = record {
      arrived = 0;
      within = omega arith;
      stream = sym (append-nil _);
      whole = inr refl;
    }
    loop-prefix s (suc k) [] = record {
      arrived = 0;
      within = omega arith;
      stream = sym (append-nil _);
      whole = inr refl;
    }
    loop-prefix s (suc k) (x ∷ xs) = loop-prefix s k xs
    loop-prefix s zero (x ∷ xs) =
        let s1 = (write s (x ∷ xs)).1 in
        let (n, counted, fits) = IsConforming.counts conforms s (x ∷ xs) in
        subst
          (λ c.
            let r =
              after (length (x ∷ xs)) (record { count = c; error = (write s (x ∷ xs)).0.error }) s1
                (λ k. loop w s1 k xs) in
            IsPrefixOf (received s) (received r.1) (x ∷ xs) r.0)
          (sym counted)
          (after-prefix s s1 x xs n (write s (x ∷ xs)).0.error fits
            (write_received s (x ∷ xs) n counted fits) (λ k. loop-prefix s1 k xs))

    -- Over a writer that keeps the contract, the bytes of the value that reached the stream are a
    -- prefix of it, on every outcome, and they are the whole value if the error is nil.
    pub bytes-prefix :
        (s : Sink) (value : Bytes)
        → IsPrefixOf (received s) (received (bytes w s value).1) value (bytes w s value).0
    unfolding bytes
    bytes-prefix s value = loop-prefix s 0 value
