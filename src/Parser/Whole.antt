-- ===== src/Parser/Whole.antt =====
-- `central_dir_parse_from_cd_buffer`, `central_dir_parse` and `central_dir_parse_partial` of
-- src/downloader/central_dir_parser.c.
use burst.Base.{
  ℕ, ◌+◌, ◌-◌, ◌/◌, ◌%◌, ◌^◌, Bool, not, ◌||◌, List, ltb, leb, ◌==◌, if◌then◌else◌, length, drop,
}
use burst.Zip.{part_size as base_part_size}
use burst.Parser.{invalid_buffer, truncated, Parsed, parsed, error, ◌>>=◌, FileMetadata}
use burst.Parser.Directory.{parse_central_directory}
use burst.Parser.Eocd.{central_dir_parse_eocd_only}
use burst.Parser.PartMap.{PartFiles, Lib, build_part_map}

-- `struct central_dir_parse_result` after a success.
pub record ParseResult : Type 0 where
  pub files : List FileMetadata
  pub parts : List PartFiles
  pub central_dir_offset : ℕ
  pub central_dir_size : ℕ
  pub is_zip64 : Bool

-- A header takes 46 bytes at least.
abbrev pub estimated_entries : ℕ → ℕ
estimated_entries cd_size = if cd_size / 46 == 0 then 1 else cd_size / 46

unfoldable pub central_dir_parse_from_cd_buffer :
    Lib → List ℕ → ℕ → ℕ → ℕ → ℕ → Bool → Parsed ParseResult
central_dir_parse_from_cd_buffer lib cd_buffer cd_offset cd_size archive_size part_size is_zip64 =
    let result = do
      files ←
          parse_central_directory lib.alloc cd_buffer cd_offset cd_offset
            (estimated_entries cd_size) cd_size part_size
      parts ← build_part_map lib files archive_size part_size
      parsed (record {
        files = files;
        parts = parts;
        central_dir_offset = cd_offset;
        central_dir_size = cd_size;
        is_zip64 = is_zip64;
      })
    in if length cd_buffer == 0
      then error invalid_buffer
      else if ltb (length cd_buffer) cd_size
      then error truncated
      else result

-- The part of the buffer from the central directory on; `archive_size - buffer_size` wraps.
unfoldable pub central_dir_parse : Lib → List ℕ → ℕ → ℕ → Parsed ParseResult
central_dir_parse lib b archive_size part_size =
    let buffer_start = (archive_size + 2 ^ 64 - length b) % 2 ^ 64 in
    let result = do
      info ← central_dir_parse_eocd_only b archive_size
      if ltb info.central_dir_offset buffer_start
          then error truncated
          else central_dir_parse_from_cd_buffer lib
              (drop (info.central_dir_offset - buffer_start) b) info.central_dir_offset
              info.central_dir_size archive_size part_size info.is_zip64
    in if length b == 0 then error invalid_buffer else result

unfoldable pub central_dir_parse_partial :
    Lib → List ℕ → ℕ → ℕ → ℕ → ℕ → ℕ → Bool → Parsed ParseResult
central_dir_parse_partial lib b buffer_start_offset central_dir_offset first_cdfh_offset
      archive_size part_size is_zip64 =
    let result = do
      found ←
          central_dir_parse_from_cd_buffer lib (drop first_cdfh_offset b)
            ((buffer_start_offset + first_cdfh_offset) % 2 ^ 64) (length b - first_cdfh_offset)
            archive_size part_size is_zip64
      parsed (record found { central_dir_offset = central_dir_offset })
    in if length b == 0
      then error invalid_buffer
      else if ltb part_size base_part_size || not (part_size % base_part_size == 0)
      then error invalid_buffer
      else if leb (length b) first_cdfh_offset
      then error truncated
      else result
