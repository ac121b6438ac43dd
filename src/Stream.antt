-- ===== src/Stream.antt =====
-- The state of src/downloader/stream_processor.c (include/stream_processor.h): one part of the
-- archive is read as it arrives, and its files are written out.
pub mod Files
pub mod Step
pub mod Extract
use burst.Base.{
  ℕ, zero, suc, ◌+◌, ◌-◌, ◌*◌, ◌/◌, ◌%◌, ◌^◌, ◌≤◌, ◌<◌, ◌≡◌, refl, sym, ap, ◌∙◌, ◌≢◌, ◌⊎◌, inl, inr,
  Bool, true, false, not, ◌&&◌, ◌||◌, Option, none, some, List, [], ◌∷◌, ◌++◌, map, append_assoc,
  append-nil, arith, ltb, leb, ◌==◌, if◌then◌else◌, Bool-cases, Option-cases, le_of_leb,
  lt_of_leb-false, lt_of_ltb, le_of_ltb-false, ltb_of_lt, ltb-false_of_le, leb_of_le, eq_of_==,
  ==_of_eq, length, get_or, get_elem?, take, drop, replicate, All, length-append, take-append-drop,
  length-take, length-drop, length-replicate, take-append, drop-append, get_or-append, length-map,
}
use burst.Btrfs.{
  FileOp, directory_made, opened, closed, unlinked, encoded_written, bytes_written, truncated,
  mode_set, owner_set, symlinked, IoctlAnswer, ioctl_done, not_supported, ioctl_failed, Kernel,
  WriteError, invalid_args, ioctl_error, decompress_failed, write_failed, Written, written,
  write_error, max_extent_size, write_bytes, do_write_unencoded, do_write_encoded,
}
use burst.Parser.{
  ParseError, invalid_buffer, no_eocd, truncated, invalid_signature, memory, Parsed, parsed, error,
  ◌>>=◌, FileMetadata, read_central_header,
}
use burst.Parser.PartMap.{
  PartFileEntry, PartFiles, Lib, count_parts, entries_from, sorted_entries, file_data_end,
  continues_into, find_continuing, part_files_of, parts_from, entries_allocated, build_part_map,
}
use burst.Parser.Whole.{
  ParseResult, estimated_entries, central_dir_parse_from_cd_buffer, central_dir_parse,
  central_dir_parse_partial,
}

pub data StreamError : Type 0 where
  invalid_arguments no_memory invalid_frame_error io_error btrfs_write_error unexpected_eof :
      StreamError

-- `enum processor_state`
pub data ProcessorState : Type 0 where
  state_init state_continuing_file state_expect_local_header state_processing_frames
        state_reading_symlink state_done state_error :
      ProcessorState

-- `fd` is whether a file descriptor is open; `symlink_buffer` is the list of the first
-- `symlink_bytes_read` bytes of the buffer, where there is one.
pub record FileContext : Type 0 where
  pub filename : List ℕ
  pub fd : Bool
  pub uncompressed_offset : ℕ
  pub expected_total_size : ℕ
  pub expected_crc32 : ℕ
  pub unix_mode : ℕ
  pub uid : ℕ
  pub gid : ℕ
  pub has_unix_mode : Bool
  pub has_unix_extra : Bool
  pub is_symlink : Bool
  pub is_directory : Bool
  pub symlink_buffer : Option (List ℕ)
  pub symlink_buffer_size : ℕ
  pub uses_zip64_descriptor : Bool

-- `frame_buffer` is the list of its first `frame_buffer_used` bytes. `error_code` is `none` for 0,
-- and `ops` is what was done to the file system so far.
pub record PartProcessor : Type 0 where
  pub part_index : ℕ
  pub part_start_offset : ℕ
  pub cd_result : ParseResult
  pub output_dir : List ℕ
  pub current_file : Option FileContext
  pub frame_buffer : List ℕ
  pub frame_buffer_capacity : ℕ
  pub next_entry_idx : ℕ
  pub bytes_processed : ℕ
  pub state : ProcessorState
  pub error_code : Option StreamError
  pub ops : List FileOp

-- The C library and the kernel.
pub record System : Type 0 where
  pub kernel : Kernel
  pub alloc : ℕ → Bool
  pub dirname : List ℕ → List ℕ
  -- `mkdir` succeeds or fails with EEXIST
  pub mkdir : List FileOp → List ℕ → Bool
  -- `stat` finds a directory
  pub is_directory_at : List FileOp → List ℕ → Bool
  pub open_file : List FileOp → List ℕ → Bool
  -- `geteuid() == 0`
  pub is_root : Bool

-- `sizeof` of the two structs on a 64-bit machine
abbrev pub sizeof_part_processor_state : ℕ
sizeof_part_processor_state = 360

abbrev pub sizeof_file_context : ℕ
sizeof_file_context = 88

abbrev pub initial_frame_buffer_capacity : ℕ
initial_frame_buffer_capacity = 256 * 1024

unfoldable pub part_processor_create : System → ℕ → ParseResult → List ℕ → ℕ → Option PartProcessor
part_processor_create sys part_index cd_result output_dir part_size =
    if leb (length cd_result.parts) part_index
    then none
    else if sys.alloc sizeof_part_processor_state && sys.alloc initial_frame_buffer_capacity
    then some (record {
      part_index = part_index;
      part_start_offset = part_index * part_size % 2 ^ 64;
      cd_result = cd_result;
      output_dir = output_dir;
      current_file = none;
      frame_buffer = [];
      frame_buffer_capacity = initial_frame_buffer_capacity;
      next_entry_idx = 0;
      bytes_processed = 0;
      state = state_init;
      error_code = none;
      ops = [];
    })
    else none

-- `&cd_result->parts[part_index]`
abbrev pub part_of : PartProcessor → PartFiles
part_of p = elim (get_elem? p.cd_result.parts p.part_index) [
  | some part ↦ part
  | none ↦ record { entries = []; continuing_file = none }
]

-- The state after an error: STATE_ERROR and the code that the function returns.
abbrev pub stopped : StreamError → PartProcessor → PartProcessor
stopped e p = record p { state = state_error; error_code = some e }

abbrev pub log : List FileOp → PartProcessor → PartProcessor
log done p = record p { ops = p.ops ++ done }
