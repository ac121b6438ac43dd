-- ===== src/Tests/Frames.antt =====
-- The frames of the writer, read back.
use burst.Base.{◌+◌, ◌-◌, ◌*◌, ◌≡◌, some, [], ◌∷◌, ◌++◌, arith, leb, if◌then◌else◌, length}
use burst.Zip.Writes.{padding_lfh_bytes}
use burst.Alignment.Frames.{padding_frame_bytes, start_of_part_bytes}
use burst.Frame.{
  frame_burst_padding, frame_burst_start_of_part, frame_zip_local_header, success, size_is, Zstd,
  sized, parse_next_frame, calculate_parts_to_download,
}
use burst.Frame.Written.{
  parse_next_frame-padding_frame_bytes, parse_next_frame-start_of_part_bytes,
  parse_next_frame-padding_lfh_bytes,
}
use burst.Frame.Parts.{calculate_parts_to_download_lem}
use burst.Tests.Data.{env}

abbrev zstd : Zstd
zstd = record {
  find_frame_compressed_size = λ b. size_is (length b);
  frame_content_size = λ b. some 3;
}

parse_next_frame-padding_frame_bytes_example :
    parse_next_frame zstd (padding_frame_bytes 5 ++ (1 ∷ 2 ∷ [])) ≡ sized frame_burst_padding 13
parse_next_frame-padding_frame_bytes_example =
    parse_next_frame-padding_frame_bytes zstd 5 (1 ∷ 2 ∷ []) (omega arith)

parse_next_frame-start_of_part_bytes_example :
    parse_next_frame zstd (start_of_part_bytes 131072 ++ (1 ∷ []))
    ≡ success (record {
      type = frame_burst_start_of_part;
      frame_size = 24;
      uncompressed_size = 0;
      start_of_part_offset = 131072;
    })
parse_next_frame-start_of_part_bytes_example =
    parse_next_frame-start_of_part_bytes zstd 131072 (1 ∷ []) (omega arith)

parse_next_frame-padding_lfh_bytes_example :
    parse_next_frame zstd (padding_lfh_bytes env 50 ++ []) ≡ sized frame_zip_local_header 50
parse_next_frame-padding_lfh_bytes_example =
    parse_next_frame-padding_lfh_bytes env zstd 50 [] (omega arith) (omega arith)

-- Twelve parts of 16 MiB, the buffer beginning in the last one.
calculate_parts_to_download_example :
    let plan = calculate_parts_to_download 12 16777216 190000000 in
    (plan.parts_to_download + (if plan.process_final_from_buffer then 1 else 0) ≡ 12)
    × (plan.process_final_from_buffer ≡ leb 190000000 ((12 - 1) * 16777216))
calculate_parts_to_download_example =
    calculate_parts_to_download_lem 12 16777216 190000000 (omega arith) (omega arith)
