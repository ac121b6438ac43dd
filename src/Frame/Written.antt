-- ===== src/Frame/Written.antt =====
-- The frames and records that the writer puts between the data, as `parse_next_frame` sees them.
use burst.Base.{
  ℕ, zero, suc, ◌+◌, ◌%◌, ◌^◌, ◌≤◌, ◌<◌, ◌≡◌, List, ◌∷◌, ◌++◌, arith, replicate, length-append,
  length-replicate,
}
use burst.Bytes.{u16_le, u32_le, u64_at-le64}
use burst.Zip.{padding_lfh_min_size}
use burst.Zip.Records.{padding_extra_len}
use burst.Zip.Writes.{padding_lfh_bytes}
use burst.Sink.{Env}
use burst.Alignment.Frames.{padding_frame_bytes, start_of_part_bytes}
use burst.Frame.{
  frame_burst_padding, frame_burst_start_of_part, frame_zip_local_header, success, Zstd, sized,
  skippable_frame, parse_next_frame,
}

skippable_padding :
    (n : ℕ) (rest : List ℕ)
    → n + 8 < 2 ^ 32
    → skippable_frame (padding_frame_bytes n ++ rest) ≡ sized frame_burst_padding (n + 8)
unfolding skippable_frame
skippable_padding zero rest small = ground arith
skippable_padding (suc n) rest small = ground (
  arith,
  u32_le (suc n % 2 ^ 32) (omega arith),
  length-append (replicate n 0) rest,
  length-replicate {A = ℕ} n 0,
)

-- A padding frame of the writer below 2 ^ 32 bytes, with anything behind it, is read as padding of
-- its whole length.
pub parse_next_frame-padding_frame_bytes :
    (zstd : Zstd) (n : ℕ) (rest : List ℕ)
    → n + 8 < 2 ^ 32
    → parse_next_frame zstd (padding_frame_bytes n ++ rest) ≡ sized frame_burst_padding (n + 8)
unfolding parse_next_frame
parse_next_frame-padding_frame_bytes zstd n rest small =
    ground (arith, skippable_padding n rest small)

-- A Start-of-Part frame of the writer, with anything behind it, is read as one, with its offset and
-- as 24 bytes long.
pub parse_next_frame-start_of_part_bytes :
    (zstd : Zstd) (offset : ℕ) (rest : List ℕ)
    → offset < 2 ^ 64
    → parse_next_frame zstd (start_of_part_bytes offset ++ rest)
      ≡ success (record {
        type = frame_burst_start_of_part;
        frame_size = 24;
        uncompressed_size = 0;
        start_of_part_offset = offset;
      })
unfolding parse_next_frame skippable_frame
parse_next_frame-start_of_part_bytes zstd offset rest small =
    ground (arith, u64_at-le64 offset (0 ∷ 0 ∷ 0 ∷ 0 ∷ 0 ∷ 0 ∷ 0 ∷ rest) small)

-- A padding entry of the writer, with anything behind it, is read as a local header of the length
-- that was asked for, from 44 bytes up to what the 16-bit length of its extra field can hold.
pub parse_next_frame-padding_lfh_bytes :
    (env : Env) (zstd : Zstd) (target_size : ℕ) (rest : List ℕ)
    → padding_lfh_min_size ≤ target_size
    → target_size < 2 ^ 16 + padding_lfh_min_size
    → parse_next_frame zstd (padding_lfh_bytes env target_size ++ rest)
      ≡ sized frame_zip_local_header target_size
unfolding parse_next_frame
parse_next_frame-padding_lfh_bytes env zstd target_size rest lo hi =
    ground (arith, u16_le (padding_extra_len target_size) (omega arith))
