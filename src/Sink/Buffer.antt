-- ===== src/Sink/Buffer.antt =====
-- The stream of all bytes that `burst_writer_write` and `burst_writer_flush` of
-- src/writer/burst_writer.c have put into the file and the buffer.
use burst.Base.{
  ℕ, zero, suc, ◌+◌, ◌%◌, ◌^◌, ◌≤◌, ◌<◌, ◌≡◌, refl, ap, ◌∙◌, ◌≢◌, ◌⊎◌, inl, inr, Option, none, some,
  List, [], ◌∷◌, ◌++◌, append_assoc, append-nil, arith, length, take, drop, length-append,
  take-append-drop, length-take, length-drop,
}
use burst.Sink.{
  Env, Outcome, ok, failed, ◌>>=◌, or_fail, Sink, buffer_used, burst_writer_flush, to_copy, copied,
  copy_chunk, write_loop, burst_writer_write, alignment_get_write_position,
}

-- The documented behaviour of `fwrite`: when it returns the full count, the data was appended.
abbrev pub Appends : Env → Type 0
Appends env =
    (out src : List ℕ) → (env.fwrite out src).0 ≡ length src → (env.fwrite out src).1 ≡ out ++ src

-- Everything written so far, in the file or in the buffer.
abbrev pub stream : Sink → List ℕ
stream s = s.output ++ s.write_buffer

-- The buffer is never left full, and `current_offset` counts the bytes in the file, as a uint64_t.
pub record IsValid (s : Sink) : Type 0 where
  pub room : buffer_used s < s.buffer_size
  pub counted : s.current_offset ≡ length s.output % 2 ^ 64

-- What a write of `src` does to a sink.
pub record Wrote (src : List ℕ) (s s' : Sink) : Type 0 where
  pub valid : IsValid s'
  pub appended : stream s' ≡ stream s ++ src

pub Outcome-cases {ℓ} :
    {S : Type ℓ} (r : Outcome S) → ((s : S) × (r ≡ ok s)) ⊎ ((s : S) × (r ≡ failed s))
Outcome-cases (ok s) = inl (s, refl)
Outcome-cases (failed s) = inr (s, refl)

length_zero : (xs : List ℕ) → length xs ≡ 0 → xs ≡ []
length_zero [] e = refl
length_zero (x ∷ xs) e = absurd (omega arith)

module _ (env : Env) (appends : Appends env) where
  -- A successful flush keeps the stream, leaves the buffer empty and the sink valid, when `fwrite`
  -- appends, the buffer has a size and `current_offset` counts the bytes of the file.
  pub burst_writer_flush-Wrote :
      (s s' : Sink)
      → 0 < s.buffer_size
      → s.current_offset ≡ length s.output % 2 ^ 64
      → burst_writer_flush env s ≡ ok s'
      → Wrote [] s s' × (s'.write_buffer ≡ [])
  unfolding burst_writer_flush
  burst_writer_flush-Wrote s s' pos counted e = ground (
    arith,
    length_zero s.write_buffer,
    appends s.output s.write_buffer,
    length-append s.output s.write_buffer,
    append-nil (stream s),
  )

  -- One round of the loop of `burst_writer_write` appends the bytes that it copies.
  copy_chunk-Wrote :
      (src : List ℕ) (s s' : Sink)
      → IsValid s
      → copy_chunk env src s ≡ ok s'
      → Wrote (take (to_copy s src) src) s s'
  unfolding copy_chunk
  copy_chunk-Wrote src s s' v e = ground (
    arith,
    burst_writer_flush-Wrote (copied s src) s',
    length-append s.write_buffer (take (to_copy s src) src),
    length-take (to_copy s src) src,
    append_assoc s.output s.write_buffer (take (to_copy s src) src),
    append-nil (stream s ++ take (to_copy s src) src),
  )

  -- The loop appends what is left of the data, and never runs out of fuel.
  write_loop-Wrote :
      (fuel : ℕ) (src : List ℕ) (s s' : Sink)
      → IsValid s
      → write_loop env fuel src s ≡ some (ok s')
      → Wrote src s s'
  unfolding write_loop
  write_loop-Wrote zero [] s s' v e = ground (arith, append-nil (stream s))
  write_loop-Wrote zero (x ∷ xs) s s' v e = cc
  write_loop-Wrote (suc fuel) [] s s' v e = ground (arith, append-nil (stream s))
  write_loop-Wrote (suc fuel) (x ∷ xs) s s' v e = elim (Outcome-cases (copy_chunk env (x ∷ xs) s)) [
    | inl (t, c) ↦
        let front : List ℕ = take (to_copy s (x ∷ xs)) (x ∷ xs) in
        let back : List ℕ = drop (to_copy s (x ∷ xs)) (x ∷ xs) in
        let first : Wrote front s t = copy_chunk-Wrote (x ∷ xs) s t v c in
        ground (
          arith,
          first,
          write_loop-Wrote fuel back t s' first.valid,
          append_assoc (stream s) front back,
          take-append-drop (to_copy s (x ∷ xs)) (x ∷ xs),
        )
    | inr (t, c) ↦ ground (arith, c)
  ]

  write_loop_total :
      (fuel : ℕ) (src : List ℕ) (s : Sink)
      → IsValid s
      → length src ≤ fuel
      → write_loop env fuel src s ≢ none
  unfolding write_loop
  write_loop_total zero [] s v h = λ e. cc
  write_loop_total zero (x ∷ xs) s v h = absurd (omega arith)
  write_loop_total (suc fuel) [] s v h = λ e. cc
  write_loop_total (suc fuel) (x ∷ xs) s v h = elim (Outcome-cases (copy_chunk env (x ∷ xs) s)) [
    | inl (t, c) ↦
        rw (c, write_loop)
          (write_loop_total fuel (drop (to_copy s (x ∷ xs)) (x ∷ xs)) t
            (copy_chunk-Wrote (x ∷ xs) s t v c).valid
            (ground (arith, v.room, length-drop (to_copy s (x ∷ xs)) (x ∷ xs))))
    | inr (t, c) ↦ rw (c, write_loop) (λ e. cc)
  ]

  -- A successful write from a valid sink appends its data to the stream and keeps the sink valid,
  -- when `fwrite` appends.
  pub burst_writer_write-Wrote :
      (src : List ℕ) (s s' : Sink)
      → IsValid s
      → burst_writer_write env src s ≡ ok s'
      → Wrote src s s'
  unfolding burst_writer_write
  burst_writer_write-Wrote src s s' v e =
      ground (arith, write_loop-Wrote (length src + 1) src s s' v)

  -- From a valid sink, the loop of `burst_writer_write` ends by its own test and the result is the
  -- loop's.
  pub burst_writer_write_total :
      (src : List ℕ) (s : Sink)
      → IsValid s
      → write_loop env (length src + 1) src s ≡ some (burst_writer_write env src s)
  unfolding burst_writer_write
  burst_writer_write_total src s v = ground (arith, write_loop_total (length src + 1) src s v)

  -- For a valid sink, `alignment_get_write_position` is the length of the stream, as a uint64_t.
  pub write_position-stream :
      (s : Sink) → IsValid s → alignment_get_write_position s ≡ length (stream s) % 2 ^ 64
  unfolding alignment_get_write_position
  write_position-stream s v = ground (arith, length-append s.output s.write_buffer)

-- Two writes in a row are one write of the joined data.
pub Wrote-append : (a b : List ℕ) (s t u : Sink) → Wrote a s t → Wrote b t u → Wrote (a ++ b) s u
Wrote-append a b s t u p q = record {
  valid = q.valid;
  appended = q.appended ∙ ap (λ l. l ++ b) p.appended ∙ append_assoc (stream s) a b;
}

-- Inversion of a step that is followed by another.
pub >>=-eq-ok :
    {S : Type 0} (r : Outcome S) (f : S → Outcome S) {u : S}
    → (r >>= f) ≡ ok u
    → (t : S) × (r ≡ ok t) × (f t ≡ ok u)
>>=-eq-ok (ok t) f e = (t, refl, e)
>>=-eq-ok (failed t) f e = cc

pub or_fail-eq-ok :
    {A S : Type 0} (o : Option A) (s : S) (f : A → Outcome S) {u : S}
    → or_fail o s f ≡ ok u
    → (a : A) × (o ≡ some a) × (f a ≡ ok u)
or_fail-eq-ok none s f e = cc
or_fail-eq-ok (some a) s f e = (a, refl, e)

-- `fwrite` always returns the full count.
abbrev pub NeverFails : Env → Type 0
NeverFails env = (out src : List ℕ) → (env.fwrite out src).0 ≡ length src

module _ (env : Env) (appends : Appends env) (never : NeverFails env) where
  burst_writer_flush-ne-failed : (s t : Sink) → burst_writer_flush env s ≢ failed t
  unfolding burst_writer_flush
  burst_writer_flush-ne-failed s t e = ground (arith, never s.output s.write_buffer)

  copy_chunk-ne-failed : (src : List ℕ) (s t : Sink) → copy_chunk env src s ≢ failed t
  unfolding copy_chunk
  copy_chunk-ne-failed src s t e = ground (arith, burst_writer_flush-ne-failed (copied s src) t)

  write_loop-ne-failed :
      (fuel : ℕ) (src : List ℕ) (s t : Sink) → write_loop env fuel src s ≢ some (failed t)
  unfolding write_loop
  write_loop-ne-failed zero [] s t = λ e. cc
  write_loop-ne-failed zero (x ∷ xs) s t = λ e. cc
  write_loop-ne-failed (suc fuel) [] s t = λ e. cc
  write_loop-ne-failed (suc fuel) (x ∷ xs) s t = elim (Outcome-cases (copy_chunk env (x ∷ xs) s)) [
    | inl (s', c) ↦
        rw (c, write_loop) (write_loop-ne-failed fuel (drop (to_copy s (x ∷ xs)) (x ∷ xs)) s' t)
    | inr (s', c) ↦ absurd (copy_chunk-ne-failed (x ∷ xs) s s' c)
  ]

  -- While `fwrite` takes and appends all that it is given, a write on a valid sink returns 0,
  -- appends its data to the stream and keeps the sink valid.
  pub burst_writer_write-ok :
      (src : List ℕ) (s : Sink)
      → IsValid s
      → (s' : Sink) × (burst_writer_write env src s ≡ ok s') × Wrote src s s'
  burst_writer_write-ok src s v = elim (Outcome-cases (burst_writer_write env src s)) [
    | inl (s', e) ↦ (s', e, burst_writer_write-Wrote env appends src s s' v e)
    | inr (t, e) ↦ absurd (
        write_loop-ne-failed (length src + 1) src s t
          (burst_writer_write_total env appends src s v ∙ ap some e))
  ]
