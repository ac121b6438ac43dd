-- ===== src/Writer/AddFile/Frames.antt =====
-- The compression loop of `burst_writer_add_file`, chunk by chunk.
use burst.Base.{
  ℕ, ◌+◌, ◌-◌, ◌*◌, ◌%◌, ◌^◌, ◌≤◌, ◌≡◌, refl, sym, ◌∙◌, inl, inr, Bool, true, false, none, some,
  List, [], ◌∷◌, ◌++◌, if◌then◌else◌, ◌<◌, ap, arith, ◌==◌, Bool-cases, length, All,
}
use mathlib.Core.Path.{subst}
use burst.Zip.{part_size}
use burst.Sink.{
  Env, Outcome, ok, failed, ◌>>=◌, Sink, burst_writer_write, alignment_get_write_position,
}
use burst.Sink.Buffer.{Appends, IsValid, write_position-stream, >>=-eq-ok, or_fail-eq-ok}
use burst.Alignment.{
  AlignmentAction, write_frame, pad_then_frame, pad_then_metadata, write_frame_then_metadata,
  AlignmentDecision, alignment_decide, alignment_write_padding_frame,
  alignment_write_start_of_part_frame,
}
use burst.Alignment.Decide.{Fits, alignment_decide-Fits}
use burst.Layout.{
  crc_of, Item, item_bytes, frame, padding_frame, start_of_part, Lays, Lays-refl, Lays-trans,
  FileData, ended, framed, padded, opened, FileData-append,
}
use burst.Writer.Steps.{position, InFile, write_item, start_of_part_step, pad_and_open}
use burst.Writer.AddFile.{
  chunk_size, Progress, progress_sink, compress_chunk, pad_before_frame, metadata_after_frame,
  write_aligned_frame, write_chunk, compress_loop,
}

-- libzstd's documented bound, weakened: a frame for one chunk is at most twice as long as a chunk.
abbrev pub BoundedFrames : Env → Type 0
BoundedFrames env =
    (level : ℕ) (chunk frame : List ℕ)
    → length chunk ≤ chunk_size
    → env.compress level chunk ≡ some frame
    → length frame ≤ 2 * chunk_size

-- `fread` returns at most the size of the buffer.
abbrev pub BoundedReads : List (List ℕ × Bool) → Type 0
BoundedReads reads = All (λ r. length (r.0) ≤ chunk_size) reads

-- From a place inside a file's data to another, with the chunks in between at the level, from one
-- uncompressed offset to another.
abbrev pub Advances : Env → ℕ → ℕ → ℕ → List (List ℕ) → Sink → Sink → Type 0
Advances env level offset end chunks s t =
    (items : List Item) × FileData level end offset chunks items × Lays env items s t × InFile t

-- The chunks of the loop: up to the first read that returns nothing.
abbrev pub chunks_read : List (List ℕ × Bool) → List (List ℕ)
chunks_read [] = []
chunks_read ((chunk, eof) ∷ reads) =
    let rest = chunks_read reads in if length chunk == 0 then [] else chunk ∷ rest

-- A last step that does nothing.
pub drop_ok :
    (r : Outcome Sink) (k : Sink → Outcome Sink) {u : Sink}
    → ((t : Sink) → k t ≡ ok t)
    → (r >>= k) ≡ ok u
    → r ≡ ok u
drop_ok (ok t) k idle e = sym (idle t) ∙ e
drop_ok (failed t) k idle e = cc

progress_sink-ok :
    (p q : Progress) (r : Outcome Sink)
    → progress_sink p r ≡ ok q
    → (s : Sink) × (r ≡ ok s)
      × (s ≡ q.sink)
      × (p.total_uncompressed ≡ q.total_uncompressed)
      × (p.crc ≡ q.crc)
progress_sink-ok p q (ok s) e = (s, refl, ground arith, ground arith, ground arith)
progress_sink-ok p q (failed s) e = cc

pub Advances-trans :
    (env : Env) (level offset mid end : ℕ) (cs ds : List (List ℕ)) (s t u : Sink)
    → Advances env level offset mid cs s t
    → Advances env level mid end ds t u
    → Advances env level offset end (cs ++ ds) s u
Advances-trans env level offset mid end cs ds s t u (is, d, l, _) (js, d', l', here) =
    (is ++ js, FileData-append d d', Lays-trans env is js s t u l l', here)

module _ (env : Env) (appends : Appends env) where
  -- A frame stands at `s` with room for a skippable frame behind it.
  frame_step :
      (level : ℕ) (chunk out : List ℕ) (s t : Sink)
      → item_bytes env (frame level chunk) ≡ out
      → IsValid s
      → 1 ≤ position s % part_size
      → position s % part_size + length out + 8 ≤ part_size
      → burst_writer_write env out s ≡ ok t
      → Lays env (frame level chunk ∷ []) s t × InFile t
  frame_step level chunk out s t same v inside fits e =
      let (l, at) =
        write_item env appends (frame level chunk) out s t same v e
          (omega arith, inl (λ z. omega (arith, z))) in
      (l, omega (arith, at))

  -- The three actions that `alignment_decide` can choose, one by one.
  write_frame_case :
      (level : ℕ) (chunk out : List ℕ) (action : AlignmentAction) (padding before after : ℕ)
      (at_eof : Bool) (s u : Sink)
      → item_bytes env (frame level chunk) ≡ out
      → (before + length chunk) % 2 ^ 64 ≡ after
      → IsValid s
      → InFile s
      → length out ≤ 2 * chunk_size
      → Fits action at_eof (part_size - position s % part_size) (length out) padding
      → (pad_before_frame env action padding before s
          >>= (λ s. burst_writer_write env out s >>= metadata_after_frame env action after))
        ≡ ok u
      → Advances env level before after (chunk ∷ []) s u
  unfolding pad_before_frame metadata_after_frame
  write_frame_case level chunk out write_frame padding before after true s u same sum v inside small
        fits e =
      let (l, here) =
        frame_step level chunk out s u same v inside.0 (ground arith)
          (drop_ok (burst_writer_write env out s) _ (λ t. refl) e) in
      (frame level chunk ∷ [], framed (ended sum), l, here)
  write_frame_case level chunk out write_frame padding before after false s u same sum v inside
        small fits e =
      let (l, here) =
        frame_step level chunk out s u same v inside.0 (omega arith)
          (drop_ok (burst_writer_write env out s) _ (λ t. refl) e) in
      (frame level chunk ∷ [], framed (ended sum), l, here)
  write_frame_case level chunk out pad_then_frame padding before after true s u same sum v inside
        small fits e =
      absurd fits
  write_frame_case level chunk out pad_then_frame padding before after false s u same sum v inside
        small fits e =
      absurd fits
  write_frame_case level chunk out pad_then_metadata padding before after at_eof s u same sum v
        inside small fits e =
      let (t, first, second) =
        >>=-eq-ok
          (alignment_write_padding_frame env padding s
            >>= alignment_write_start_of_part_frame env before)
          _ e in
      let (l, at) =
        pad_and_open env appends padding before s t v inside (fills at_eof fits) first in
      let (m, done) =
        frame_step level chunk out t u same l.valid (omega (arith, at)) (omega (arith, at))
          (drop_ok (burst_writer_write env out t) _ (λ t. refl) second) in
      (
        padding_frame padding ∷ start_of_part before ∷ frame level chunk ∷ [],
        padded (opened (framed (ended sum))),
        Lays-trans env _ _ s t u l m,
        done,
      )
    where
      fills :
          (at_eof : Bool)
          → Fits pad_then_metadata at_eof (part_size - position s % part_size) (length out) padding
          → padding + 8 ≡ part_size - position s % part_size
      fills true (p, _, _) = p
      fills false (p, _, _) = p
  write_frame_case level chunk out write_frame_then_metadata padding before after true s u same sum
        v inside small fits e =
      absurd fits
  write_frame_case level chunk out write_frame_then_metadata padding before after false s u same sum
        v inside small fits e =
      let (t, first, second) = >>=-eq-ok (burst_writer_write env out s) _ e in
      let (l, at) =
        write_item env appends (frame level chunk) out s t same v first
          (omega arith, inl (λ z. omega (arith, z))) in
      let (m, done) = start_of_part_step env appends after t u l.valid (omega (arith, at)) second in
      (
        frame level chunk ∷ start_of_part after ∷ [],
        framed (
            subst (λ o. FileData level after o [] (start_of_part after ∷ [])) (sym sum)
              (opened (ended refl))),
        Lays-trans env _ _ s t u l m,
        omega (arith, done),
      )

  -- A frame is written with what the alignment asks for before and after it.
  write_aligned_frame-Advances :
      (level : ℕ) (chunk out : List ℕ) (at_eof : Bool) (before after : ℕ) (s u : Sink)
      → item_bytes env (frame level chunk) ≡ out
      → (before + length chunk) % 2 ^ 64 ≡ after
      → IsValid s
      → InFile s
      → length out ≤ 2 * chunk_size
      → write_aligned_frame env out at_eof before after s ≡ ok u
      → Advances env level before after (chunk ∷ []) s u
  unfolding write_aligned_frame
  write_aligned_frame-Advances level chunk out at_eof before after s u same sum v inside small e =
      let d : AlignmentDecision =
        alignment_decide (alignment_get_write_position s) (length out) at_eof in
      write_frame_case level chunk out d.action d.padding_size before after at_eof s u same sum v
        inside small
        (rw (write_position-stream env appends s v)
          (alignment_decide-Fits (position s) (length out) at_eof (omega arith) (omega arith)))
        e

  module _ (bounded : BoundedFrames env) where
    write_chunk-Advances :
        (level : ℕ) (chunk : List ℕ) (eof : Bool) (p q : Progress)
        → p.total_uncompressed < 2 ^ 64
        → IsValid p.sink
        → InFile p.sink
        → length chunk ≤ chunk_size
        → write_chunk env level chunk eof p ≡ ok q
        → Advances env level p.total_uncompressed q.total_uncompressed (chunk ∷ []) p.sink q.sink
          × (q.total_uncompressed < 2 ^ 64)
    unfolding write_chunk compress_chunk
    write_chunk-Advances level chunk eof p q total v inside small e =
        let (out, c, found) = or_fail-eq-ok (env.compress level chunk) _ _ e in
        let after : ℕ = (p.total_uncompressed + length chunk) % 2 ^ 64 in
        let (s, written, same, counted, _) =
          progress_sink-ok (record p { crc = env.crc32 p.crc chunk; total_uncompressed = after }) q
            _ found in
        let before : (after + 2 ^ 64 - length chunk) % 2 ^ 64 ≡ p.total_uncompressed =
          omega arith in
        let bytes : item_bytes env (frame level chunk) ≡ out =
          ap (λ r. elim r [ some b ↦ b | none ↦ [] ]) c in
        let step =
          write_aligned_frame-Advances level chunk out _ ((after + 2 ^ 64 - length chunk) % 2 ^ 64)
            after p.sink s bytes (ap (λ k. (k + length chunk) % 2 ^ 64) before) v inside
            (bounded level chunk out small c) written in
        (
          subst (λ k. Advances env level p.total_uncompressed k (chunk ∷ []) p.sink q.sink) counted
              (subst (λ t. Advances env level p.total_uncompressed after (chunk ∷ []) p.sink t) same
                (rw before at step)),
          rw (sym counted) (omega arith),
        )

    -- When the compression loop succeeds, from a valid sink inside a file's data, it has appended
    -- the frames of the chunks up to the first empty read, in order, and between them padding
    -- frames and Start-of-Part frames that name the uncompressed offset reached. No frame crosses a
    -- boundary, only a Start-of-Part frame stands at one, and the end is inside the file's data
    -- again: not at a boundary, and with room for a skippable frame. A read returns at most a
    -- chunk, `fwrite` appends, frames are at most twice as long as a chunk, and the offset at the
    -- start is below 2 ^ 64.
    pub compress_loop-Advances :
        (level : ℕ) (reads : List (List ℕ × Bool)) (p q : Progress)
        → p.total_uncompressed < 2 ^ 64
        → IsValid p.sink
        → InFile p.sink
        → BoundedReads reads
        → compress_loop env level reads p ≡ ok q
        → Advances env level p.total_uncompressed q.total_uncompressed
            (chunks_read reads)
            p.sink
            q.sink
    unfolding compress_loop
    compress_loop-Advances level [] p q total v inside small e =
        let same : p ≡ q = ground arith in
        subst (λ r. Advances env level p.total_uncompressed r.total_uncompressed [] p.sink r.sink)
          same ([], ended refl, Lays-refl env p.sink v, inside)
    compress_loop-Advances level ((chunk, eof) ∷ reads) p q total v inside (h, hs) e =
        elim (Bool-cases (length chunk == 0)) [
          | inl end ↦
              let same : p ≡ q = ground (arith, end) in
              rw end (
                subst
                  (λ r.
                    Advances env level p.total_uncompressed r.total_uncompressed [] p.sink r.sink)
                  same ([], ended refl, Lays-refl env p.sink v, inside))
          | inr more ↦
              let step : (write_chunk env level chunk eof p >>= compress_loop env level reads)
                  ≡ ok q =
                ground (arith, more) in
              let (r, first, rest) = >>=-eq-ok (write_chunk env level chunk eof p) _ step in
              let ((is, d, l, here), total') =
                write_chunk-Advances level chunk eof p r total v inside h first in
              rw more (
                Advances-trans env level _ _ _ (chunk ∷ []) (chunks_read reads) p.sink r.sink q.sink
                  (is, d, l, here)
                  (compress_loop-Advances level reads r q total' l.valid here hs rest))
        ]

-- The checksum of the loop is that of the chunks.
write_chunk-crc :
    (env : Env) (level : ℕ) (chunk : List ℕ) (eof : Bool) (p q : Progress)
    → write_chunk env level chunk eof p ≡ ok q
    → env.crc32 p.crc chunk ≡ q.crc
unfolding write_chunk
write_chunk-crc env level chunk eof p q e =
    let after : ℕ = (p.total_uncompressed + length chunk) % 2 ^ 64 in
    let p' : Progress = record p { crc = env.crc32 p.crc chunk; total_uncompressed = after } in
    let (out, c, found) = or_fail-eq-ok (compress_chunk env chunk level) p' _ e in
    let (s, written, same, counted, crc) = progress_sink-ok p' q _ found in crc

pub compress_loop-crc_of :
    (env : Env) (level : ℕ) (reads : List (List ℕ × Bool)) (p q : Progress)
    → compress_loop env level reads p ≡ ok q
    → q.crc ≡ crc_of env p.crc (chunks_read reads)
unfolding compress_loop
compress_loop-crc_of env level [] p q e = ground arith
compress_loop-crc_of env level ((chunk, eof) ∷ reads) p q e =
    elim (Bool-cases (length chunk == 0)) [
      | inl end ↦ ground (arith, end)
      | inr more ↦
          let step : (write_chunk env level chunk eof p >>= compress_loop env level reads) ≡ ok q =
            ground (arith, more) in
          let (r, first, rest) = >>=-eq-ok (write_chunk env level chunk eof p) _ step in
          let here = write_chunk-crc env level chunk eof p r first in
          rw more (
            compress_loop-crc_of env level reads r q rest
            ∙ ap (λ k. crc_of env k (chunks_read reads)) (sym here))
    ]
