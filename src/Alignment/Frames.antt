-- ===== src/Alignment/Frames.antt =====
-- `alignment_write_padding_frame` and `alignment_write_start_of_part_frame`: the frames that reach
-- the stream, and where they end.
use burst.Base.{ℕ, zero, suc, ◌%◌, ◌^◌, List, [], ◌∷◌, ◌++◌, append-nil, arith, replicate}
use burst.Bytes.{le32, le64}
use burst.Zip.{burst_magic_number}
use burst.Sink.{Env, ok, burst_writer_write, count_padding}
use burst.Sink.Buffer.{Appends, stream}
use burst.Sink.Rules.{
  Writes, Writes-bind, Writes-last, count_padding-Writes, Writes-counted, write-Writes,
}
use burst.Alignment.{
  write_padding_zeros, alignment_write_padding_frame, alignment_write_start_of_part_frame,
}

-- The frames as the format has them: magic, payload size, payload.
abbrev pub padding_frame_bytes : ℕ → List ℕ
padding_frame_bytes n = le32 burst_magic_number ++ (le32 (n % 2 ^ 32) ++ replicate n 0)

abbrev pub start_of_part_bytes : ℕ → List ℕ
start_of_part_bytes offset =
    le32 burst_magic_number ++ (le32 16 ++ ((0x01 ∷ []) ++ (le64 offset ++ replicate 7 0)))

module _ (env : Env) (appends : Appends env) where
  write_padding_zeros-Writes : (n : ℕ) → Writes (write_padding_zeros env n) (replicate n 0)
  unfolding write_padding_zeros
  write_padding_zeros-Writes zero s t v e = ground (arith, append-nil (stream s))
  write_padding_zeros-Writes (suc n) s t v e =
      Writes-last (burst_writer_write env (replicate (suc n) 0))
        (λ t. ok (count_padding (suc n % 2 ^ 32) t)) _ (write-Writes env appends _)
        (count_padding-Writes _) s t v (ground arith)

  -- A successful call appends one whole padding frame.
  pub alignment_write_padding_frame-Writes :
      (n : ℕ) → Writes (alignment_write_padding_frame env n) (padding_frame_bytes n)
  unfolding alignment_write_padding_frame
  alignment_write_padding_frame-Writes n =
      Writes-bind _ _ (le32 burst_magic_number) _ (write-Writes env appends _) (
        Writes-counted 4 _ _ (
          Writes-bind _ _ (le32 (n % 2 ^ 32)) _ (write-Writes env appends _)
            (Writes-counted 4 _ _ (write_padding_zeros-Writes n))))

  -- A successful call appends one whole Start-of-Part frame.
  pub alignment_write_start_of_part_frame-Writes :
      (offset : ℕ)
      → Writes (alignment_write_start_of_part_frame env offset) (start_of_part_bytes offset)
  unfolding alignment_write_start_of_part_frame
  alignment_write_start_of_part_frame-Writes offset =
      Writes-bind _ _ (le32 burst_magic_number) _ (write-Writes env appends _) (
        Writes-bind _ _ (le32 16) _ (write-Writes env appends _) (
          Writes-bind _ _ (0x01 ∷ []) _ (write-Writes env appends _) (
            Writes-bind _ _ (le64 offset) _ (write-Writes env appends _) (
              Writes-last _ _ _ (write-Writes env appends (replicate 7 0))
                (count_padding-Writes 24)))))
