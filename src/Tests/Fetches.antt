-- ===== src/Tests/Fetches.antt =====
-- A small archive in parts of 8 bytes, of which the last 11 bytes came first: the central directory
-- is the 14 bytes from offset 19 on.
use burst.Parser.{FileMetadata}
use burst.Base.{
  ℕ, ◌/◌, ◌^◌, ◌<◌, ◌≡◌, refl, ◌⊎◌, Bool, true, false, some, List, [], ◌∷◌, arith, drop, replicate,
  All, length-replicate,
}
use burst.CdFetch.{
  CdPartRange, ranges, count_ranges, range_end, fill_ranges, calculate_cd_fetch_ranges,
}
use burst.CdFetch.Slices.{slice}
use burst.CdFetch.Buffers.{
  BodyDataSegment, FetchedRange, body_segments_of, assemble_cd_buffer, add_tail_buffer_segment,
}
use burst.CdFetch.Ranges.{Cover, calculate_cd_fetch_ranges-Cover}
use burst.CdFetch.Assemble.{Fetched, ranges_of}
use burst.CdFetch.Whole.{assemble_cd_buffer-slice}
use burst.CdFetch.Segments.{HoldsBody, add_tail_buffer_segment-HoldsBody}
use burst.CdFetch.Queue.{
  part_start, first_safe_part, queue_parts, build_early_part_queue, build_late_part_queue,
}
use burst.CdFetch.Parts.{InPart}
use burst.CdFetch.Early.{build_early_part_queue_complete}
use burst.CdFetch.Late.{InSegment, Queued, build_late_part_queue_complete}

abbrev archive : List ℕ
archive =
    0 ∷ 1 ∷ 2 ∷ 3 ∷ 4 ∷ 5 ∷ 6 ∷ 7 ∷ 8 ∷ 9 ∷ 10 ∷ 11 ∷ 12 ∷ 13 ∷ 14 ∷ 15 ∷ 16 ∷ 17 ∷ 18 ∷ 19 ∷ 20
    ∷ 21 ∷ 22 ∷ 23 ∷ 24 ∷ 25 ∷ 26 ∷ 27 ∷ 28 ∷ 29 ∷ 30 ∷ 31 ∷ 32 ∷ 33 ∷ 34 ∷ 35 ∷ 36 ∷ 37 ∷ 38 ∷ 39
    ∷ []

abbrev alloc : ℕ → Bool
alloc n = true

abbrev fetched : List FetchedRange
fetched =
    record {
      range = record { start = 16; end = 23; has_body_data = true; body_data_size = 3 };
      buffer = some (slice 16 8 archive);
    }
    ∷ record {
      range = record { start = 24; end = 28; has_body_data = false; body_data_size = 0 };
      buffer = some (slice 24 5 archive);
    }
    ∷ []

asked : calculate_cd_fetch_ranges alloc 19 8 29 ≡ ranges (ranges_of fetched)
unfolding calculate_cd_fetch_ranges count_ranges fill_ranges range_end
asked = refl

fetched-Fetched : Fetched archive fetched
fetched-Fetched = (refl, (refl, tt))

calculate_cd_fetch_ranges-Cover_example :
    (rs : List CdPartRange) × (calculate_cd_fetch_ranges alloc 19 8 29 ≡ ranges rs)
    × Cover 19 8 29 16 rs
calculate_cd_fetch_ranges-Cover_example =
    calculate_cd_fetch_ranges-Cover alloc 19 8 29 (omega arith) (omega arith) (omega arith)
      (λ n. refl)

assemble_cd_buffer-slice_example :
    assemble_cd_buffer alloc (λ n. replicate n 255) (some (drop 29 archive)) 29 fetched 19 14
    ≡ some (record { cd_buffer = slice 19 14 archive; body_segments = body_segments_of fetched })
assemble_cd_buffer-slice_example =
    assemble_cd_buffer-slice alloc (λ n. replicate n 255) archive 19 14 8 29 fetched (λ n. refl)
      (λ n. length-replicate n 255) (omega arith) (omega arith) (omega arith) (omega arith)
      (omega arith) asked fetched-Fetched

add_tail_buffer_segment-HoldsBody_example :
    (segments : List BodyDataSegment) × (add_tail_buffer_segment alloc
        (body_segments_of fetched)
        (some (drop 29 archive))
        29
        19
      ≡ some segments)
    × All (HoldsBody archive 19) segments
add_tail_buffer_segment-HoldsBody_example =
    add_tail_buffer_segment-HoldsBody alloc archive 19 8 29 fetched (λ n. refl) (omega arith)
      (omega arith) (omega arith) (omega arith) (omega arith) asked fetched-Fetched

-- A file that starts at an offset, in parts of 8 bytes.
abbrev file_at : ℕ → FileMetadata
file_at offset = record {
  filename = [];
  local_header_offset = offset;
  compressed_size = 0;
  uncompressed_size = 0;
  crc32 = 0;
  compression_method = 0;
  part_index = offset / 8;
  unix_mode = 0;
  uid = 0;
  gid = 0;
  has_unix_mode = false;
  has_unix_extra = false;
  is_symlink = false;
  uses_zip64_descriptor = false;
}

file_at-InPart : (offset : ℕ) → offset < 2 ^ 64 → InPart 8 (file_at offset)
file_at-InPart offset small = record { part = refl; small = small }

abbrev known_files : List FileMetadata
known_files = file_at 11 ∷ file_at 14 ∷ file_at 18 ∷ file_at 33 ∷ []

-- The part of the first known file may hold more files, and the last part is in the buffer.
third_part_queued : build_early_part_queue 8 29 known_files ≡ 2 ∷ []
unfolding build_early_part_queue first_safe_part queue_parts
third_part_queued = refl

build_early_part_queue_complete_example :
    All (λ p. (1 < p) × (part_start 8 p < 29)) (build_early_part_queue 8 29 known_files)
build_early_part_queue_complete_example =
    build_early_part_queue_complete 8 29 (file_at 9) known_files (omega arith)
      (file_at-InPart 9 (omega arith))
      (
        file_at-InPart 11 (omega arith),
        (
          file_at-InPart 14 (omega arith),
          (file_at-InPart 18 (omega arith), (file_at-InPart 33 (omega arith), tt)),
        ),
      )
      (omega arith, (omega arith, (omega arith, (omega arith, tt))))

-- The second part of three was not dispatched, the third is in the segment in front of the directory.
build_late_part_queue_complete_example :
    (false ≡ true)
    ⊎ (InSegment (body_segments_of fetched) 17
        ⊎ Queued
            (build_late_part_queue 8 19 (body_segments_of fetched) (true ∷ false ∷ false ∷ []))
            2)
unfolding body_segments_of
build_late_part_queue_complete_example =
    build_late_part_queue_complete 8 19 (body_segments_of fetched) (true ∷ false ∷ false ∷ []) 17
      false (omega arith) (omega arith) (omega arith) (omega arith, tt) (omega arith) refl
